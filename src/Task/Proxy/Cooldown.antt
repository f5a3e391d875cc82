-- ===== src/Task/Proxy/Cooldown.antt =====
-- How long a proxy rests.
use survey_controller.Common.{
  ℕ, ◌+◌, ◌≤◌, ◌≡◌, max, ℤ, clamp_0, Bool, false, not, ◌&&◌, Option, none, some, List, [], ◌∷◌,
  Text, strip, contains, leb, ltb, ◌==◌, if◌then◌else◌, is_empty, refl, arith, text_eq,
  text_beq_iff,
}
use survey_controller.Common.Dict.{
  Dict, lookup, erase, HasUniqueKeys, lookup-insert, lookup-erase_self, lookup-erase_other,
  erase-HasUniqueKeys,
}
use survey_controller.Task.Defs.{ExecutionState, notify_runtime_change}
use survey_controller.Task.Proxy.{
  expired_addresses, erase_all, purge_expired_proxy_cooldowns, cooldown_until, is_proxy_in_cooldown,
  mark_proxy_in_cooldown,
}

lookup-erase_all :
    (addresses : List Text) (m : Dict Text ℕ) (a : Text)
    → HasUniqueKeys m
    → lookup a (erase_all addresses m) ≡ (if contains a addresses then none else lookup a m)
unfolding erase_all
lookup-erase_all [] m a u = refl
lookup-erase_all (b ∷ addresses) m a u = ground (
  arith,
  lookup-erase_all addresses (erase b m) a (erase-HasUniqueKeys b m u),
  lookup-erase_self b m u,
  lookup-erase_other b a m,
  text_beq_iff b a,
)

abbrev over_at : ℕ → Option ℕ → Bool
over_at now none = false
over_at now (some t) = leb t now

contains-expired_addresses :
    (now : ℕ) (m : Dict Text ℕ) (a : Text)
    → HasUniqueKeys m
    → contains a (expired_addresses now m) ≡ over_at now (lookup a m)
unfolding expired_addresses lookup
contains-expired_addresses now [] a u = refl
contains-expired_addresses now ((b, t) ∷ m) a u =
    ground (arith, contains-expired_addresses now m a u.1, text_beq_iff b a)

-- A purge ends no cooldown: from `now` on, an address rests at a time exactly if it did before,
-- and the answer for an address with a name is whether its recorded time is still ahead.
pub purge_keeps_cooldowns :
    (now later : ℕ) (address : Text) (s : ExecutionState)
    → HasUniqueKeys s.proxy_cooldown_until_by_address
    → now ≤ later
    → is_empty (strip address) ≡ false
    → (ltb later (cooldown_until (strip address) (is_proxy_in_cooldown address now s).0)
        ≡ ltb later (cooldown_until (strip address) s))
      × ((is_proxy_in_cooldown address now s).1 ≡ ltb now (cooldown_until (strip address) s))
unfolding is_proxy_in_cooldown purge_expired_proxy_cooldowns
purge_keeps_cooldowns now later address s u le named =
    let m = s.proxy_cooldown_until_by_address in
    ground (
      arith,
      lookup-erase_all (expired_addresses now m) m (strip address) u,
      contains-expired_addresses now m (strip address) u,
    )

-- A mark that names an address and a positive time makes that address rest at least to the end of
-- the time, and never shortens a cooldown; no other address is touched, and any other mark leaves
-- every cooldown as it is.
pub mark_extends_cooldown :
    (address other : Text) (seconds : ℤ) (now : ℕ) (s : ExecutionState)
    → cooldown_until other (mark_proxy_in_cooldown address seconds now s) ≡ (
        if not (is_empty (strip address)) && ltb 0 (clamp_0 seconds) && strip address == other
        then max (cooldown_until other s) (now + clamp_0 seconds)
        else cooldown_until other s)
unfolding mark_proxy_in_cooldown notify_runtime_change
mark_extends_cooldown address other seconds now s = ground (
  arith,
  lookup-insert (strip address) other
      (max (cooldown_until (strip address) s) (now + clamp_0 seconds))
      s.proxy_cooldown_until_by_address,
  text_beq_iff (strip address) other,
)
