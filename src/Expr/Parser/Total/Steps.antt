-- ===== src/Expr/Parser/Total/Steps.antt =====
-- What the steps that the levels of the parser share keep and read of the tokens.
use potato_etl.Base.{
  ap, sym, ◌∙◌, ℕ, zero, suc, ◌<◌, ◌≤◌, ◌≡◌, ◌≢◌, refl, Bool, true, false, Option, none, List, [],
  ◌∷◌, Text, length, arith, Option-cases, inl, inr, ok, err, Ensures, holds, fails, Ensures-then,
  Ensures-if, Ensures-weaken,
}
use potato_etl.Expr.Syntax.{Tok, BinOp, Expr, Error}
use potato_etl.Expr.Parser.{
  Parser, peek, step, expect_ident, is_dot, eat, expect, binary_loop, binary, dotted,
}

module _ {F : Type 0} where
  abbrev pub EndsEof : List (Tok F) → Type 0
  EndsEof [] = ⊥
  EndsEof (t ∷ []) = t ≡ Tok.eof
  EndsEof (t ∷ t' ∷ ts) = EndsEof (t' ∷ ts)

  -- What a parser leaves still ends with `eof`, and is no longer, or shorter, than what it was given.
  abbrev pub Keeps : {A : Type 0} → List (Tok F) → A × List (Tok F) → Type 0
  Keeps ts r = EndsEof r.1 × (length r.1 ≤ length ts)

  abbrev pub Reads : {A : Type 0} → List (Tok F) → A × List (Tok F) → Type 0
  Reads ts r = EndsEof r.1 × (length r.1 < length ts)

  -- With fewer than `n` tokens left the parser ends and reads at least one.
  abbrev pub ReadsWithin : {A : Type 0} → ℕ → Parser F A → Type 0
  ReadsWithin n p = (ts : List (Tok F)) → EndsEof ts → length ts < n → Ensures (Reads ts) (p ts)

  pub step-Reads :
      (ts : List (Tok F))
      → EndsEof ts
      → peek ts ≢ Tok.eof
      → EndsEof (step ts) × (length (step ts) < length ts)
  unfolding peek step
  step-Reads [] h n = absurd h
  step-Reads (t ∷ []) h n = absurd (n h)
  step-Reads (t ∷ t' ∷ ts) h n = (h, omega arith)

  pub step-Keeps :
      (ts : List (Tok F)) → EndsEof ts → EndsEof (step ts) × (length (step ts) ≤ length ts)
  unfolding step
  step-Keeps [] h = absurd h
  step-Keeps (t ∷ []) h = (h, omega arith)
  step-Keeps (t ∷ t' ∷ ts) h = (h, omega arith)

  -- A test that `eof` fails.
  abbrev pub Misses : (Tok F → Bool) → Type 0
  Misses test = test Tok.eof ≡ false

  pub ne_eof : (test : Tok F → Bool) (t : Tok F) → Misses test → test t ≡ true → t ≢ Tok.eof
  ne_eof test t m h = λ e. cc (ap test e)

  pub eat-Keeps :
      (test : Tok F → Bool) (ts : List (Tok F)) → EndsEof ts → Ensures (Keeps ts) (eat test ts)
  unfolding eat
  eat-Keeps test ts h =
      Ensures-if (test (peek ts)) (λ _. holds (step-Keeps ts h)) (λ _. holds (h, omega arith))

  pub expect-Keeps :
      (test : Tok F → Bool) (e : Error) (ts : List (Tok F))
      → EndsEof ts
      → Ensures (Keeps ts) (expect test e ts)
  unfolding expect
  expect-Keeps test e ts h =
      Ensures-then (eat-Keeps test ts h)
        λ (found, us) k. Ensures-if found (λ _. holds k) (λ _. fails)

  pub ident-Ensures :
      (t : Tok F) (us : List (Tok F)) (P : Text × List (Tok F) → Type 0)
      → ((s : Text) → t ≡ Tok.ident s → P (s, us))
      → Ensures P (
          (elim t as (λ _. Parser F Text) [
            | Tok.ident s ↦ λ vs. ok (s, vs)
            | _ ↦ λ vs. err Error.expected_identifier
          ])
            us)
  ident-Ensures (Tok.ident s) us P h = holds (h s refl)
  ident-Ensures _ us P h = fails

  pub expect_ident-Reads : (ts : List (Tok F)) → EndsEof ts → Ensures (Reads ts) (expect_ident ts)
  unfolding expect_ident
  expect_ident-Reads ts h =
      ident-Ensures (peek ts) (step ts) (Reads ts) λ s e. step-Reads ts h (λ k. cc (sym e ∙ k))

  pub dotted-Keeps :
      (f : ℕ) (col : Text) (ts : List (Tok F))
      → EndsEof ts
      → length ts < f
      → Ensures (Keeps ts) (dotted f col ts)
  unfolding dotted
  dotted-Keeps zero col ts h l = absurd (omega arith)
  dotted-Keeps (suc f) col ts h l =
      Ensures-if (is_dot (peek ts))
        (λ d.
          let (h₁, l₁) = step-Reads ts h (ne_eof is_dot _ refl d) in
          Ensures-then (expect_ident-Reads (step ts) h₁) λ (next, us) k.
            Ensures-weaken (dotted-Keeps f _ us k.0 (omega arith)) λ r q. (q.0, omega arith))
        (λ _. holds (h, omega arith))

  -- A loop of operands, each of which reads.
  pub binary_loop-Keeps :
      (op_of : Tok F → Option BinOp) (operand : Parser F (Expr F)) (n : ℕ)
      → op_of Tok.eof ≡ none
      → ReadsWithin n operand
      → (f : ℕ) (left : Expr F) (ts : List (Tok F)) → EndsEof ts
      → length ts < n
      → length ts < f
      → Ensures (Keeps ts) (binary_loop op_of operand f left ts)
  unfolding binary_loop
  binary_loop-Keeps op_of operand n m reads zero left ts h b l = absurd (omega arith)
  binary_loop-Keeps op_of operand n m reads (suc f) left ts h b l =
      elim (Option-cases (op_of (peek ts))) [
        | inl e ↦ rw (e, binary_loop) (holds (h, omega arith))
        | inr (op, e) ↦
            let (h₁, l₁) = step-Reads ts h (λ k. cc (ap op_of k)) in
            rw (e, binary_loop)
              (Ensures-then (reads (step ts) h₁ (omega arith)) λ (right, us) k.
                Ensures-weaken
                  (binary_loop-Keeps op_of operand n m reads f _ us k.0 (omega arith) (omega arith))
                  λ r q. (q.0, omega arith))
      ]

  pub binary-ReadsWithin :
      (op_of : Tok F → Option BinOp) (operand : Parser F (Expr F)) (n f : ℕ)
      → op_of Tok.eof ≡ none
      → n ≤ f
      → ReadsWithin n operand
      → ReadsWithin n (binary op_of operand f)
  unfolding binary
  binary-ReadsWithin op_of operand n f m b reads ts h l =
      Ensures-then (reads ts h l) λ (left, us) k.
        Ensures-weaken
          (binary_loop-Keeps op_of operand n m reads f left us k.0 (omega arith) (omega arith))
          λ r q. (q.0, omega arith)
