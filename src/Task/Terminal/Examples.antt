-- ===== src/Task/Terminal/Examples.antt =====
-- Two stops, one after the other.
use survey_controller.Common.{◌≡◌, false, text, strip, is_empty, refl}

not_blank : is_empty (strip (text "user_stopped")) ≡ false
unfolding strip
not_blank = refl
