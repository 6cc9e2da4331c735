-- ===== src/Approval/Router.antt =====
-- daemon/src/comms/channel-router.ts: the registered channel adapters, and the delivery of a message
-- to them. `routeMessage` works on all target channels at once; a `Completion` is the work on one of
-- them, with the answers that it gets, and the list of completions is in the order in which they end.
-- A message's metadata is reduced to the fields that the router reads. `collectInbound` is left out.
pub mod Settings
pub mod Delivery
use kithkit.Base.{
  String, Bool, true, false, ◌&&◌, ◌||◌, List, [], ◌∷◌, ◌++◌, map, Option, none, some, filter, any,
  str_eq, if◌then◌else◌,
}
use kithkit.Base.Dict
use kithkit.Base.Dict.{Dict}

pub data Verbosity : Type 0 where
  verbose normal headlines : Verbosity

pub record OutboundMessage : Type 0 where
  pub text : String
  pub recipients : Option (List String)
  pub sender_agent : Option String
  pub chat_id : Option String

-- Of an adapter, what the router calls before it sends.
pub record ChannelAdapter : Type 0 where
  pub name : String
  pub format_message : String → Verbosity → String

pub record OutboundGateContext : Type 0 where
  pub channel : String
  pub recipient : List String
  pub content : String
  pub raw_content : String
  pub sender_agent : String

-- `outbound_gate` says whether a gate is registered.
pub record State : Type 0 where
  pub adapters : Dict ChannelAdapter
  pub verbosity_settings : Dict Verbosity
  pub outbound_gate : Bool

unfoldable pub register_adapter : State → ChannelAdapter → State
register_adapter s a = record s {
  adapters = Dict.set a.name a s.adapters;
  verbosity_settings =
      if Dict.has a.name s.verbosity_settings
      then s.verbosity_settings
      else Dict.set a.name normal s.verbosity_settings;
}

unfoldable pub unregister_adapter : State → String → State × Bool
unregister_adapter s name = (
  record s {
    adapters = Dict.delete name s.adapters;
    verbosity_settings = Dict.delete name s.verbosity_settings;
  },
  Dict.has name s.adapters,
)

unfoldable pub register_outbound_gate : State → State
register_outbound_gate s = record s { outbound_gate = true }

unfoldable pub set_verbosity : State → String → Verbosity → State
set_verbosity s channel v = record s {
  verbosity_settings = Dict.set channel v s.verbosity_settings;
}

unfoldable pub get_verbosity : State → String → Verbosity
get_verbosity s channel = elim (Dict.get channel s.verbosity_settings) [
  | none ↦ normal
  | some v ↦ v
]

-- What the gate does with its promise, and `send` with its own: `none` where it throws.
pub data GateReply : Type 0 where
  allows denies throws : GateReply

pub record Completion : Type 0 where
  pub channel : String
  pub gate : GateReply
  pub send : Option Bool

-- What the work on a channel does, in its order.
pub data Action : Type 0 where
  persists : (channel : String) → (recipient : Option String) → (text : String) → Action
  asks : OutboundGateContext → Action
  sends : (channel : String) → (text : String) → Action

abbrev pub or_unknown : Option String → String
or_unknown none = "unknown"
or_unknown (some s) = s

abbrev pub or_empty : Option (List String) → List String
or_empty none = []
or_empty (some rs) = rs

-- `persistence` is the configuration's feature flag. A failure of the insert is only logged.
unfoldable pub persist : (persistence : Bool) → OutboundMessage → String → List Action
persist persistence message channel =
    if persistence
      && (str_eq channel "teams" || str_eq channel "telegram")
      && str_eq (or_unknown message.sender_agent) "comms"
    then persists channel message.chat_id message.text ∷ []
    else []

unfoldable pub gate_context : OutboundMessage → String → String → OutboundGateContext
gate_context message channel formatted = record {
  channel = channel;
  recipient = or_empty message.recipients;
  content = formatted;
  raw_content = message.text;
  sender_agent = or_unknown message.sender_agent;
}

abbrev pub succeeded : Option Bool → Bool
succeeded none = false
succeeded (some b) = b

-- The send, if there is no gate or it allows it.
unfoldable pub guarded :
    (gated : Bool) → OutboundGateContext → String → Completion → List Action × Bool
guarded false ctx text c = (sends c.channel text ∷ [], succeeded c.send)
guarded true ctx text c = elim c.gate [
  | allows ↦ (asks ctx ∷ sends c.channel text ∷ [], succeeded c.send)
  | denies ↦ (asks ctx ∷ [], false)
  | throws ↦ (asks ctx ∷ [], false)
]

module _ (persistence : Bool) (s : State) (message : OutboundMessage) where
  -- With the adapter that is registered for the channel.
  unfoldable pub deliver : Option ChannelAdapter → Completion → List Action × Bool
  unfolding persist guarded gate_context
  deliver none c = ([], false)
  deliver (some adapter) c =
      let text = adapter.format_message message.text (get_verbosity s c.channel) in
      let (actions, result) =
        guarded s.outbound_gate (gate_context message c.channel text) text c in
      (persist persistence message c.channel ++ actions, result)

  unfoldable pub work : Completion → List Action × Bool
  unfolding deliver
  work c = deliver (Dict.get c.channel s.adapters) c

  -- The results, and what was done, after the completions in their order.
  unfoldable pub settle : List Completion → Dict Bool → Dict Bool
  unfolding work
  settle [] results = results
  settle (c ∷ cs) results = settle cs (Dict.set c.channel (work c).1 results)

  unfoldable pub actions : List Completion → List Action
  unfolding work
  actions [] = []
  actions (c ∷ cs) = (work c).0 ++ actions cs

-- The channels that a message goes to: those asked for that are registered, or all.
unfoldable pub targets : State → List String → List String
targets s [] = map (λ e. e.0) s.adapters
targets s (c ∷ cs) = filter (λ name. Dict.has name s.adapters) (c ∷ cs)
