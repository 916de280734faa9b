-- ===== src/Collector/Publish.antt =====
-- `buildMsg` and `publish` of collector/main.go. The Kafka client is a parameter: `accepts log m`
-- says whether `SendMessage` acknowledges `m` after the messages of `log`. `json.Marshal` is a
-- parameter too: its result is `none` where it fails.
pub mod Laws
use cisco_netconf_mac_db.Common.{Bool, Option, none, some, List, [], ◌∷◌, ◌++◌, Text, if◌then◌else◌}

pub record Message : Type 0 where
  pub topic : Text
  pub key : Text
  pub value : Text

pub data Error : Type 0 where
  marshal_error send_error : Error

-- Sending is an action on the list of acknowledged messages. `none` is the nil error.
abbrev pub Action : Type 0
Action = List Message → Option Error × List Message

unfoldable pub build_msg : Text → Text → Option Text → Option Message
build_msg topic key none = none
build_msg topic key (some b) = some (record { topic = topic; key = key; value = b })

abbrev pub resume : Action → Option Error × List Message → Option Error × List Message
resume b r = elim r.0 [ none ↦ b r.1 | some x ↦ (some x, r.1) ]

-- `if err := a; err != nil { return err }`, then `b`
abbrev pub seq : Action → Action → Action
seq a b log = resume b (a log)

module _ (accepts : List Message → Message → Bool) where
  unfoldable pub send_message : Message → Action
  send_message m log = if accepts log m then (none, log ++ m ∷ []) else (some send_error, log)

  abbrev pub send_built : Option Message → Action
  send_built none log = (some marshal_error, log)
  send_built (some m) log = send_message m log

  unfoldable pub publish : Text → Text → Option Text → Action
  unfolding build_msg send_message
  publish topic key v = send_built (build_msg topic key v)
