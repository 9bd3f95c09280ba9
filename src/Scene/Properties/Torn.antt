-- ===== src/Scene/Properties/Torn.antt =====
-- services/tscn-merge.ts: setPropertyLines on the lines that are no properties, such as those on
-- which a value goes on.
use vmcp.Base.{true, false, Text, ◌≡◌}
use vmcp.Scene.Attrs.{Attrs}
use vmcp.Scene.Properties.{is_other}

abbrev IsOther : Text → Type 0
IsOther line = is_other line ≡ true

abbrev IsKept : Text → Type 0
IsKept line = is_other line ≡ false
