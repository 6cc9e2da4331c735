-- ===== src/Approval/Router/Settings.antt =====
-- What the registration of adapters does to the settings of the channels.
use kithkit.Base.{String, eq_iff, ◌≡◌, arith}
use kithkit.Base.Dict
use kithkit.Base.Dict.{get-set}
use kithkit.Approval.Router.{State, ChannelAdapter, normal, register_adapter, get_verbosity}

-- Registering an adapter, anew or in place of one of the same name, changes the verbosity of no
-- channel, whether it was set before or stands at the default.
pub register_keeps_verbosity :
    (s : State) (a : ChannelAdapter) (ch : String)
    → get_verbosity (register_adapter s a) ch ≡ get_verbosity s ch
unfolding get_verbosity register_adapter Dict.has
register_keeps_verbosity s a ch =
    ground (arith, eq_iff a.name ch, get-set a.name ch normal s.verbosity_settings)
