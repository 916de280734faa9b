-- ===== src/Collector/Stream/Laws.antt =====
-- What a stream leaves behind.
use cisco_netconf_mac_db.Common.{
  ℕ, suc, ◌+◌, ◌≡◌, refl, ap, ◌∙◌, Bool, true, false, Option, none, some, List, [], ◌∷◌, ◌++◌,
  arith,
}
use cisco_netconf_mac_db.Proto.{Telemetry}
use cisco_netconf_mac_db.Collector.Publish.{Message}
use cisco_netconf_mac_db.Collector.Stream.{
  Env, Recv, args, recv_error, unavailable, Session, dispatch, handle, receive, mdt_dialout,
}

-- The data of a message, and whether the response to it can be sent.
abbrev pub Round : Type 0
Round = List ℕ × Bool

-- Rounds in which `Recv` does not fail.
abbrev pub received_in : List Round → List Recv
received_in [] = []
received_in ((bytes, send_ok) ∷ rounds) = args bytes send_ok ∷ received_in rounds

abbrev prepend : Option Telemetry → List Telemetry → List Telemetry
prepend none ts = ts
prepend (some t) ts = t ∷ ts

abbrev count : Option Telemetry → Bool → ℕ → ℕ
count none send_ok n = n
count (some t) false n = n
count (some t) true n = suc n

module _ (env : Env) where
  abbrev decoded : List ℕ → Option Telemetry
  decoded [] = none
  decoded (b ∷ bs) = env.unmarshal (b ∷ bs)

  -- The messages of the rounds that are neither empty nor undecodable.
  pub telemetries : List Round → List Telemetry
  telemetries [] = []
  telemetries ((bytes, send_ok) ∷ rounds) = prepend (decoded bytes) (telemetries rounds)

  -- The number of those messages for which the response can be sent.
  pub answered : List Round → ℕ
  answered [] = 0
  answered ((bytes, send_ok) ∷ rounds) = count (decoded bytes) send_ok (answered rounds)

  -- Dispatching messages one after another, whatever errors that gives.
  pub dispatch_all : List Telemetry → List Message → List Message
  dispatch_all [] log = log
  dispatch_all (t ∷ ts) log = dispatch_all ts (dispatch env t log).1

  abbrev session_of : List Message → ℕ → Session
  session_of log acks = record { log = log; acks = acks }

  abbrev pub session_after : List Round → Session → Session
  session_after rounds s = record {
    log = dispatch_all (telemetries rounds) s.log;
    acks = answered rounds + s.acks;
  }

  session_after-prepend :
      (o : Option Telemetry) (send_ok : Bool) (ts : List Telemetry) (n : ℕ) (s : Session)
      → session_of
          (dispatch_all ts (handle env o send_ok s).log)
          (n + (handle env o send_ok s).acks)
        ≡ session_of (dispatch_all (prepend o ts) s.log) (count o send_ok n + s.acks)
  unfolding dispatch_all
  session_after-prepend none send_ok ts n s = refl
  session_after-prepend (some t) false ts n s = refl
  session_after-prepend (some t) true ts n s =
      let same : n + suc s.acks ≡ suc n + s.acks = omega arith in
      ap (session_of (dispatch_all ts (dispatch env t s.log).1)) same

  session_after-round :
      (round : Round) (rounds : List Round) (s : Session)
      → session_after rounds (receive env round.0 round.1 s) ≡ session_after (round ∷ rounds) s
  unfolding receive telemetries answered
  session_after-round ([], send_ok) rounds s = refl
  session_after-round (b ∷ bs, send_ok) rounds s =
      session_after-prepend (env.unmarshal (b ∷ bs)) send_ok (telemetries rounds) (answered rounds)
        s

  session_after-nil : (s : Session) → s ≡ session_after [] s
  unfolding telemetries answered dispatch_all
  session_after-nil s = let same : s.acks ≡ 0 + s.acks = omega arith in ap (session_of s.log) same

  mdt_dialout-waits :
      (rounds : List Round) (s : Session)
      → mdt_dialout env (received_in rounds) s ≡ (none, session_after rounds s)
  unfolding mdt_dialout
  mdt_dialout-waits [] s = ap (λ x. (none, x)) (session_after-nil s)
  mdt_dialout-waits ((bytes, send_ok) ∷ rounds) s =
      mdt_dialout-waits rounds (receive env bytes send_ok s)
      ∙ ap (λ x. (none, x)) (session_after-round (bytes, send_ok) rounds s)

  mdt_dialout-ends :
      (rounds : List Round) (rest : List Recv) (s : Session)
      → mdt_dialout env (received_in rounds ++ recv_error ∷ rest) s
        ≡ (some unavailable, session_after rounds s)
  unfolding mdt_dialout
  mdt_dialout-ends [] rest s = ap (λ x. (some unavailable, x)) (session_after-nil s)
  mdt_dialout-ends ((bytes, send_ok) ∷ rounds) rest s =
      mdt_dialout-ends rounds rest (receive env bytes send_ok s)
      ∙ ap (λ x. (some unavailable, x)) (session_after-round (bytes, send_ok) rounds s)

  -- The loop waits for more, with no status, as long as `Recv` does not fail, and ends with the status
  -- Unavailable when it fails, whatever it would return after that. Either way every message received
  -- that is not empty and decodes has been dispatched, in order, on whatever log the ones before it
  -- left, and the responses sent are as many as the sends to these messages that succeed: an error of
  -- a dispatch does not suppress the response, and an error of a send does not end the loop. The other
  -- messages are skipped with no response.
  pub mdt_dialout_lem :
      (rounds : List Round) (rest : List Recv) (s : Session)
      → (mdt_dialout env (received_in rounds) s ≡ (none, session_after rounds s))
        × (mdt_dialout env (received_in rounds ++ recv_error ∷ rest) s
            ≡ (some unavailable, session_after rounds s))
  mdt_dialout_lem rounds rest s = (mdt_dialout-waits rounds s, mdt_dialout-ends rounds rest s)
