-- ===== src/Sender/Finish.antt =====
-- That whatever is being built can be finished and sent.
use lopack.Prelude.{
  ℕ, zero, suc, true, false, List, [], ◌∷◌, ◌++◌, ◌≡◌, ◌≢◌, ◌<◌, ◌-◌, refl, ap, ◌∙◌, arith, ◌⊎◌,
  inl, inr, if◌then◌else◌, Bool-cases,
}
use lopack.Prelude.Text.{Text}
use lopack.Outcome.{Outcome, done, thrown, undefined}
use lopack.Liblo.{Liblo, null}
use lopack.Sender.State.{OscSender, Sender, is_set}
use lopack.Sender.Stream.{Streamed}
use lopack.Sender.Command.{Command}
use lopack.Sender.Safety.{Reach, Reach-IsSound}
use lopack.Sender.Protocol.{
  Phase, phase, Verdict, goes, refuses, breaks, goes_on, judge, judge_all, verdict_of, run_all,
  run_all-judge_all,
}

abbrev end_bundles : ℕ → List Command
end_bundles zero = []
end_bundles (suc n) = Command.streams Streamed.end_bundle ∷ end_bundles n

-- endMessage if a message is in progress, endBundle for each bundle if one is, and send.
abbrev pub finishing : Phase → List Command
finishing p =
    (if p.writing then Command.streams Streamed.end_message ∷ [] else [])
    ++ (if p.bundling then end_bundles p.depth else [])
    ++ Command.send ∷ []

goes_on_assoc :
    (v : Verdict) (f g h : Phase → Verdict)
    → ((q : Phase) → h q ≡ goes_on (f q) g)
    → goes_on v h ≡ goes_on (goes_on v f) g
goes_on_assoc (goes q) f g h e = e q
goes_on_assoc (refuses e q) f g h _ = refl
goes_on_assoc breaks f g h e = refl

judge_all-append :
    (cs ds : List Command) (p : Phase)
    → judge_all (cs ++ ds) p ≡ goes_on (judge_all cs p) (judge_all ds)
unfolding judge_all
judge_all-append [] ds p = refl
judge_all-append (c ∷ cs) ds p =
    goes_on_assoc (judge c p) (judge_all cs) (judge_all ds) (judge_all (cs ++ ds))
      (judge_all-append cs ds)

abbrev outside : Phase → Phase
outside p = record p { bundling = false; depth = 1 }

judge_all-end_bundles :
    (n : ℕ) (p : Phase)
    → p.bundling ≡ true
    → p.depth ≡ suc n
    → judge_all (end_bundles (suc n)) p ≡ goes (outside p)
unfolding judge_all judge
judge_all-end_bundles zero p inside one = ground (arith, inside, one)
judge_all-end_bundles (suc n) p inside more =
    ground (arith, inside, more, judge_all-end_bundles n (record p { depth = suc n }) inside refl)

-- Outside of messages and bundles, with something to send.
judge_all-send :
    (p : Phase)
    → p.addressed ≡ true
    → p.writing ≡ false
    → p.bundling ≡ false
    → (p.filled ≡ true) ⊎ (0 < p.depth)
    → judge_all (Command.send ∷ []) p ≡ goes (record p { filled = false; depth = 0 })
unfolding judge_all judge
judge_all-send p set quiet out some = ground arith

judge_all-ends_and_send :
    (p : Phase)
    → p.addressed ≡ true
    → p.writing ≡ false
    → (p.bundling ≡ true → 0 < p.depth)
    → (p.filled ≡ true) ⊎ (p.bundling ≡ true)
    → judge_all ((if p.bundling then end_bundles p.depth else []) ++ Command.send ∷ []) p
      ≡ goes (record p { filled = false; bundling = false; depth = 0 })
judge_all-ends_and_send p set quiet held some = elim (Bool-cases p.bundling) [
  | inl inside ↦
      let deep : p.depth ≡ suc (p.depth - 1) = omega (arith, held inside) in
      ap (λ b. judge_all ((if b then end_bundles p.depth else []) ++ Command.send ∷ []) p) inside
      ∙ ap (λ d. judge_all (end_bundles d ++ Command.send ∷ []) p) deep
      ∙ judge_all-append (end_bundles (suc (p.depth - 1))) (Command.send ∷ []) p
      ∙ ap (λ v. goes_on v (judge_all (Command.send ∷ [])))
          (judge_all-end_bundles (p.depth - 1) p inside deep)
      ∙ judge_all-send (outside p) set quiet refl (inr (omega arith))
  | inr out ↦
      ap (λ b. judge_all ((if b then end_bundles p.depth else []) ++ Command.send ∷ []) p) out
      ∙ judge_all-send p set quiet out (ground (arith, out, some))
      ∙ ap (λ b. goes (record p { filled = false; bundling = b; depth = 0 })) out
]

-- After endMessage, what is held went into the bundle if there is one.
judge-end_message :
    (p : Phase)
    → p.writing ≡ true
    → p.filled ≡ true
    → (p.bundling ≡ true → 0 < p.depth)
    → judge (Command.streams Streamed.end_message) p
      ≡ goes (record p { writing = false; filled = if p.bundling then false else true })
unfolding judge
judge-end_message p within full held = elim (Bool-cases p.bundling) [
  | inl inside ↦ ground (arith, within, full, inside, held inside)
  | inr out ↦ ground (arith, within, full, out)
]

-- The phase in which a new sender that was given an address is.
abbrev pub ready : Phase
ready = record { addressed = true; filled = false; writing = false; bundling = false; depth = 0 }

judge_all-finishing :
    (p : Phase)
    → p.addressed ≡ true
    → (p.writing ≡ true → p.filled ≡ true)
    → (p.bundling ≡ true → 0 < p.depth)
    → (p.writing ≡ true) ⊎ (p.bundling ≡ true)
    → judge_all (finishing p) p ≡ goes ready
unfolding judge_all
judge_all-finishing p set full held busy = elim (Bool-cases p.writing) [
  | inr out ↦
      ap
        (λ b.
          judge_all
            ((if b then Command.streams Streamed.end_message ∷ [] else [])
              ++ (if p.bundling then end_bundles p.depth else [])
              ++ Command.send ∷ [])
            p)
        out
      ∙ judge_all-ends_and_send p set out held (ground (arith, out, busy))
      ∙ ground (arith, set, out)
  | inl within ↦
      let q = record p { writing = false; filled = if p.bundling then false else true } in
      ap
        (λ b.
          judge_all
            ((if b then Command.streams Streamed.end_message ∷ [] else [])
              ++ (if p.bundling then end_bundles p.depth else [])
              ++ Command.send ∷ [])
            p)
        within
      ∙ ap
          (λ v.
            goes_on v
              (judge_all ((if p.bundling then end_bundles p.depth else []) ++ Command.send ∷ [])))
          (judge-end_message p within (full within) held)
      ∙ judge_all-ends_and_send q set refl held (ground (arith, Bool-cases p.bundling))
      ∙ ground (arith, set)
]

verdict_of-goes :
    {W : Type 0} (o : Outcome (OscSender W)) (p : Phase)
    → verdict_of o ≡ goes p
    → (t : OscSender W) × (o ≡ done t) × (phase t ≡ p)
verdict_of-goes (done t) p e = (t, refl, ground (arith, e))
verdict_of-goes (thrown x t) p e = cc
verdict_of-goes undefined p e = cc

module _ (lo : Liblo) (new_message : (w : lo.World) → (lo.message_new w).1 ≢ null)
    (new_address : (host port : Text) (w : lo.World) → (lo.address_new host port w).1 ≢ null) where
  -- Whatever allowed calls came before, a sender with an address that is inside a message or a
  -- bundle can finish and send: endMessage if it is inside a message, endBundle for each bundle that
  -- it holds if it is inside one, and then send all go through, and nothing is left to send.
  pub Reach-finishing :
      {s : Sender lo}
      → Reach lo s
      → is_set s.address ≡ true
      → (s.message_in_progress ≡ true) ⊎ (s.bundle_in_progress ≡ true)
      → (t : Sender lo) × (run_all lo (finishing (phase s)) s ≡ done t) × (phase t ≡ ready)
  Reach-finishing {s} r set busy =
      let v = Reach-IsSound lo new_message r in
      verdict_of-goes (run_all lo (finishing (phase s)) s) ready (
        run_all-judge_all lo new_message new_address (finishing (phase s)) s
        ∙ judge_all-finishing (phase s) set (λ h. ground (arith, v.has_message h))
            (λ h. ground (arith, v.has_bundle h)) busy)
