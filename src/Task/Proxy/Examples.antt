-- ===== src/Task/Proxy/Examples.antt =====
-- Cooldowns of two addresses.
use survey_controller.Common.{◌≡◌, false, [], ◌∷◌, text, strip, ltb, is_empty, refl, arith, text_eq}
use survey_controller.Common.Dict.{lookup, HasUniqueKeys}
use survey_controller.Task.Defs.{ExecutionState}
use survey_controller.Task.Samples.{fresh}
use survey_controller.Task.Proxy.{cooldown_until, is_proxy_in_cooldown}
use survey_controller.Task.Proxy.Cooldown.{purge_keeps_cooldowns}

abbrev resting : ExecutionState
resting = record fresh {
  proxy_cooldown_until_by_address = (text "1.1.1.1:80", 9) ∷ (text "2.2.2.2:80", 30) ∷ [];
}

resting_unique : HasUniqueKeys resting.proxy_cooldown_until_by_address
unfolding lookup
resting_unique = (refl, (refl, tt))

address_not_blank : is_empty (strip (text "2.2.2.2:80")) ≡ false
unfolding strip
address_not_blank = refl

purge_keeps_cooldowns_example :
    (ltb 20 (
        cooldown_until
          (strip (text "2.2.2.2:80"))
          (is_proxy_in_cooldown (text "2.2.2.2:80") 10 resting).0)
      ≡ ltb 20 (cooldown_until (strip (text "2.2.2.2:80")) resting))
    × ((is_proxy_in_cooldown (text "2.2.2.2:80") 10 resting).1
        ≡ ltb 10 (cooldown_until (strip (text "2.2.2.2:80")) resting))
purge_keeps_cooldowns_example =
    purge_keeps_cooldowns 10 20 (text "2.2.2.2:80") resting resting_unique (omega arith)
      address_not_blank
