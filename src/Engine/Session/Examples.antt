-- ===== src/Engine/Session/Examples.antt =====
-- A round of Slot-1, which holds a joint sample and a row, that ends with an error of the AI.
use survey_controller.Common.{
  pos, refl, ◌≡◌, some, none, [], true, false, text_eq, nat_eq, strip, is_some,
}
use survey_controller.Common.Dict.{lookup}
use survey_controller.Common.Decimal.{decimal}
use survey_controller.Task.Defs.{thread_key, named}
use survey_controller.Engine.StopPolicy.Resources.{HasUniqueHolders, held_sample, held_row}
use survey_controller.Engine.Samples.{started, started-HasUniqueHolders}
use survey_controller.Engine.Scheduler.{new_scheduler}
use survey_controller.Engine.Session.{World, slot_label, ai_error, raised}
use survey_controller.Engine.Session.Steps.{Session, submitting, SessionEvent, submits, react}
use survey_controller.Engine.Session.Sound.{AtRest}
use survey_controller.Engine.Session.Ends.{session-AtRest}

abbrev world : World
world = record {
  state = started;
  stop = false;
  scheduled = false;
  scheduler = new_scheduler (pos 2);
  proxy_ip_pool = [];
  proxy_address = none;
}

abbrev failed : SessionEvent
failed = submits (raised (ai_error (record { is_timeout = true; message = [] }))) [] 9 (pos 0)

abbrev after_round : Session
after_round = react (slot_label 1) (some (pos 2)) failed (submitting 0) world

-- The session works with what it has reserved.
holds_before :
    (is_some (held_sample (thread_key (named (slot_label 1))) world.state) ≡ true)
    × (is_some (held_row (thread_key (named (slot_label 1))) world.state) ≡ true)
unfolding slot_label lookup thread_key strip decimal
holds_before = (refl, refl)

session-AtRest_example :
    HasUniqueHolders after_round.world.state
    × AtRest (slot_label 1) after_round.point after_round.world
session-AtRest_example =
    session-AtRest 1 (some (pos 2)) failed (submitting 0) world started-HasUniqueHolders tt
