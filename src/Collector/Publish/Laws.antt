-- ===== src/Collector/Publish/Laws.antt =====
-- Publishing one message after another stops at the first error.
use cisco_netconf_mac_db.Common.{
  ◌≡◌, ◌↔◌, refl, sym, ap, Bool, true, Option, none, some, List, [], ◌∷◌, ◌++◌, map, Bool-cases,
  inl, inr, arith, if◌then◌else◌,
}
use mathlib.Core.Path.{subst, fun_ext, ◌∙◌}
use mathlib.Core.List.{append_assoc, append-nil}
use cisco_netconf_mac_db.Collector.Publish.{
  Message, Error, marshal_error, send_error, Action, resume, seq, send_message, send_built,
}

-- What was acknowledged is a prefix of the messages, and all of them exactly without an error.
pub record IsPrefixSent (ms : List (Option Message)) (log : List Message)
    (result : Option Error × List Message) : Type 0 where
  pub sent : List Message
  pub rest : List (Option Message)
  pub split : map some sent ++ rest ≡ ms
  pub logged : result.1 ≡ log ++ sent
  pub complete : (result.0 ≡ none) ↔ (rest ≡ [])

resume-resume :
    (a b : Action) (r : Option Error × List Message) → resume (seq a b) r ≡ resume b (resume a r)
resume-resume a b (none, log) = refl
resume-resume a b (some x, log) = refl

module _ (accepts : List Message → Message → Bool) where
  -- The messages in turn; `none` is one that failed to marshal.
  unfoldable pub publish_all : List (Option Message) → Action
  publish_all [] log = (none, log)
  publish_all (m ∷ ms) log = seq (send_built accepts m) (publish_all ms) log

  publish_all-cons_ok :
      (m : Message) (ms : List (Option Message)) (log : List Message)
      → accepts log m ≡ true
      → publish_all (some m ∷ ms) log ≡ publish_all ms (log ++ m ∷ [])
  unfolding publish_all send_message
  publish_all-cons_ok m ms log e =
      ap
        (λ (b : Bool).
          resume (publish_all ms) (if b then (none, log ++ m ∷ []) else (some send_error, log)))
        e

  publish_all_prefix_cons :
      (m : Message) (ms : List (Option Message)) (log : List Message)
      → IsPrefixSent ms (log ++ m ∷ []) (publish_all ms (log ++ m ∷ []))
      → accepts log m ≡ true
      → IsPrefixSent (some m ∷ ms) log (publish_all (some m ∷ ms) log)
  unfolding publish_all send_message
  publish_all_prefix_cons m ms log h e =
      subst (IsPrefixSent (some m ∷ ms) log) (sym (publish_all-cons_ok m ms log e)) (record {
        sent = m ∷ h.sent;
        rest = h.rest;
        split = λ i. some m ∷ h.split i;
        logged = rw h.logged (append_assoc log (m ∷ []) h.sent);
        complete = h.complete;
      })

  publish_all_prefix_stop :
      (m : Option Message) (ms : List (Option Message)) (log : List Message) (x : Error)
      → send_built accepts m log ≡ (some x, log)
      → IsPrefixSent (m ∷ ms) log (publish_all (m ∷ ms) log)
  unfolding publish_all
  publish_all_prefix_stop m ms log x e =
      subst (IsPrefixSent (m ∷ ms) log) (sym (ap (resume (publish_all ms)) e)) (record {
        sent = [];
        rest = m ∷ ms;
        split = refl;
        logged = sym (append-nil log);
        complete = ground arith;
      })

  pub publish_all_prefix :
      (ms : List (Option Message)) (log : List Message) → IsPrefixSent ms log (publish_all ms log)
  unfolding publish_all send_message
  publish_all_prefix [] log = record {
    sent = [];
    rest = [];
    split = refl;
    logged = sym (append-nil log);
    complete = ground arith;
  }
  publish_all_prefix (none ∷ ms) log = publish_all_prefix_stop none ms log marshal_error refl
  publish_all_prefix (some m ∷ ms) log = elim (Bool-cases (accepts log m)) [
    | inl e ↦ publish_all_prefix_cons m ms log (publish_all_prefix ms (log ++ m ∷ [])) e
    | inr e ↦ publish_all_prefix_stop (some m) ms log send_error (rw e)
  ]

  pub publish_all-append :
      (ms ns : List (Option Message)) (log : List Message)
      → publish_all (ms ++ ns) log ≡ seq (publish_all ms) (publish_all ns) log
  unfolding publish_all
  publish_all-append [] ns log = refl
  publish_all-append (m ∷ ms) ns log =
      ap (λ (b : Action). resume b (send_built accepts m log)) (fun_ext (publish_all-append ms ns))
      ∙ resume-resume (publish_all ms) (publish_all ns) (send_built accepts m log)
