-- ===== src/Expr/Parser/RoundTrip/Levels.antt =====
-- The levels of the parser by number, what reading at a level means, and how a level that reads is
-- lifted through those around it.
use potato_etl.Base.{
  append_assoc, ◌==◌, ◌-◌, length-append, ℕ, zero, suc, ◌<◌, ◌≤◌, ◌≡◌, refl, ap, Bool, true, false,
  Option, none, some, List, [], ◌∷◌, ◌++◌, codes, length, arith, if◌then◌else◌, ok, then_ok,
  Bool-cases, inl, inr,
}
use potato_etl.Unicode.{Unicode}
use potato_etl.Expr.Syntax.{Tok, BinOp, Expr}
use potato_etl.Expr.Parser.{
  Parser, peek, step, is_rparen, is_lbracket, is_minus, cmp_op, add_op, mul_op, binary_loop, binary,
  is_word, or_op, and_op, postfix_loop, postfix, unary_expr, mul_expr, add_expr, cmp_expr, not_expr,
  and_expr, or_level, or_expr,
}

module _ {F : Type 0} where
  pub step-cons :
      (t : Tok F) (w : List (Tok F)) (t' : Tok F) (rest : List (Tok F))
      → step (t ∷ (w ++ t' ∷ rest)) ≡ w ++ t' ∷ rest
  unfolding step
  step-cons t [] t' rest = refl
  step-cons t (t'' ∷ w) t' rest = refl

  -- A loop ends at a token that is none of its operators, and takes a round at one that is.
  pub binary_loop_stop :
      (op_of : Tok F → Option BinOp) (operand : Parser F (Expr F)) (k : ℕ) (e : Expr F) (t : Tok F)
      (rest : List (Tok F))
      → op_of t ≡ none
      → binary_loop op_of operand (suc k) e (t ∷ rest) ≡ ok (e, t ∷ rest)
  unfolding binary_loop peek
  binary_loop_stop op_of operand k e t rest h = rw (h, binary_loop)

  pub binary_loop_round :
      (op_of : Tok F → Option BinOp) (operand : Parser F (Expr F)) (k : ℕ) (a b : Expr F)
      (op : BinOp) (t : Tok F) (w : List (Tok F)) (t' : Tok F) (rest : List (Tok F))
      → 0 < k
      → op_of t ≡ some op
      → operand (w ++ t' ∷ rest) ≡ ok (b, t' ∷ rest)
      → binary_loop op_of operand k a (t ∷ (w ++ t' ∷ rest))
        ≡ binary_loop op_of operand (k - 1) (Expr.bin_op op a b) (t' ∷ rest)
  unfolding binary_loop peek
  binary_loop_round op_of operand zero a b op t w t' rest p h r = elim p [ ]
  binary_loop_round op_of operand (suc k) a b op t w t' rest p h r =
      let same : suc k - 1 ≡ k = omega arith in
      rw (same, h, binary_loop) (rw (step-cons t w t' rest, r))

  abbrev pub HeadIs : (Tok F → Type 0) → List (Tok F) → Type 0
  HeadIs P [] = ⊥
  HeadIs P (t ∷ w) = P t

-- The levels with a loop of operators that associate to the left.
abbrev pub is_left : ℕ → Bool
is_left zero = true
is_left (suc zero) = true
is_left (suc (suc (suc (suc zero)))) = true
is_left (suc (suc (suc (suc (suc zero))))) = true
is_left _ = false

module _ (u : Unicode) {F : Type 0} where
  -- How tightly a token binds to an expression before it, and one more; 0 if it does not.
  unfoldable pub binds : Tok F → ℕ
  unfolding is_word
  binds (Tok.ident w) =
      if is_word u {F = F} (codes "and") (Tok.ident w)
      then 2
      else if is_word u {F = F} (codes "or") (Tok.ident w)
      then 1
      else 0
  binds Tok.eq_eq = 4
  binds Tok.ne = 4
  binds Tok.lt = 4
  binds Tok.le = 4
  binds Tok.gt = 4
  binds Tok.ge = 4
  binds Tok.plus = 5
  binds Tok.minus = 5
  binds Tok.star = 6
  binds Tok.slash = 6
  binds Tok.lbracket = 8
  binds Tok.dot = 9
  binds Tok.lparen = 9
  binds _ = 0

  -- An expression at level `p` ends before the token.
  abbrev pub Stops : ℕ → Tok F → Type 0
  Stops p t = binds t ≤ p

  abbrev pub op_of_level : ℕ → Tok F → Option BinOp
  op_of_level zero = or_op u
  op_of_level (suc zero) = and_op u
  op_of_level (suc (suc (suc (suc zero)))) = add_op
  op_of_level (suc (suc (suc (suc (suc zero))))) = mul_op
  op_of_level _ = λ t. none

  abbrev pub level : ℕ → Parser F (Expr F) → ℕ → Parser F (Expr F)
  level zero = or_level u
  level (suc zero) = and_expr u
  level (suc (suc zero)) = not_expr u
  level (suc (suc (suc zero))) = cmp_expr u
  level (suc (suc (suc (suc zero)))) = add_expr u
  level (suc (suc (suc (suc (suc zero))))) = mul_expr u
  level (suc (suc (suc (suc (suc (suc zero)))))) = unary_expr u
  level _ = postfix u

  pub op_of_level-Stops : (p : ℕ) (t : Tok F) → Stops p t → op_of_level p t ≡ none
  unfolding binds or_op and_op cmp_op add_op mul_op
  op_of_level-Stops zero t h = ground arith
  op_of_level-Stops (suc zero) t h = ground arith
  op_of_level-Stops (suc (suc (suc (suc zero)))) t h = ground arith
  op_of_level-Stops (suc (suc (suc (suc (suc zero))))) t h = ground arith
  op_of_level-Stops _ t h = refl

  -- `w` is read as `e` at level `p`, with fuel above the tokens, in front of a token where it stops.
  abbrev pub Reads : ℕ → List (Tok F) → Expr F → Type 0
  Reads p w e =
      (f g : ℕ) (t : Tok F) (rest : List (Tok F))
      → length (w ++ t ∷ rest) ≤ f
      → length (w ++ t ∷ rest) < g
      → Stops p t
      → level p (or_expr u f) g (w ++ t ∷ rest) ≡ ok (e, t ∷ rest)

  -- `w` is read as the left operand `e` of the loop of level `p`, with enough fuel left.
  abbrev pub StartsLoop : ℕ → List (Tok F) → Expr F → Type 0
  StartsLoop p w e =
      (f g : ℕ) (t : Tok F) (rest : List (Tok F))
      → length (w ++ t ∷ rest) ≤ f
      → length (w ++ t ∷ rest) < g
      → Stops (suc p) t
      → (k : ℕ) × (length (t ∷ rest) < k)
        × (binary (op_of_level p) (level (suc p) (or_expr u f) g) g (w ++ t ∷ rest)
            ≡ binary_loop (op_of_level p) (level (suc p) (or_expr u f) g) k e (t ∷ rest))

  -- The same for the indices of level 7.
  abbrev pub StartsPostfix : List (Tok F) → Expr F → Type 0
  StartsPostfix w e =
      (f g : ℕ) (t : Tok F) (rest : List (Tok F))
      → length (w ++ t ∷ rest) ≤ f
      → length (w ++ t ∷ rest) < g
      → Stops 8 t
      → (k : ℕ) × (length (t ∷ rest) < k)
        × (postfix u (or_expr u f) g (w ++ t ∷ rest) ≡ postfix_loop u (or_expr u f) k e (t ∷ rest))

  -- The first token of an expression at level `p` closes nothing and is no prefix operator of a
  -- lower level.
  abbrev pub HeadFits : ℕ → Tok F → Type 0
  HeadFits p t =
      (2 < p → is_word u (codes "not") t ≡ false)
      × (6 < p → is_minus t ≡ false)
      × (is_rparen t ≡ false)

  pub level-binary :
      (p : ℕ) (or_expr : Parser F (Expr F)) (g : ℕ)
      → is_left p ≡ true
      → level p or_expr g ≡ binary (op_of_level p) (level (suc p) or_expr g) g
  unfolding or_level and_expr add_expr mul_expr
  level-binary zero or_expr g h = refl
  level-binary (suc zero) or_expr g h = refl
  level-binary (suc (suc (suc (suc zero)))) or_expr g h = refl
  level-binary (suc (suc (suc (suc (suc zero))))) or_expr g h = refl
  level-binary _ or_expr g h = cc

  -- An operand starts the loop of the level below it.
  pub StartsLoop-Reads :
      (p : ℕ) (w : List (Tok F)) (e : Expr F) → Reads (suc p) w e → StartsLoop p w e
  unfolding binary
  StartsLoop-Reads p w e r f g t rest b l s =
      (g, omega (arith, length-append w (t ∷ rest)), rw (r f g t rest b l s))

  -- A loop that is started ends in front of a token where the level stops.
  pub Reads-StartsLoop :
      (p : ℕ) (w : List (Tok F)) (e : Expr F) → is_left p ≡ true → StartsLoop p w e → Reads p w e
  Reads-StartsLoop p w e left r f g t rest b l s =
      let (k, enough, run) = r f g t rest b l (omega arith) in
      rw (level-binary p _ g left, run)
        (let positive : k ≡ suc (k - 1) = omega arith in
          rw positive
            (binary_loop_stop (op_of_level p) _ (k - 1) e t rest (op_of_level-Stops p t s)))

  not_expr-lift :
      (w : List (Tok F)) (e : Expr F) → HeadIs (HeadFits 3) w → Reads 3 w e → Reads 2 w e
  unfolding not_expr
  not_expr-lift w e h r f zero t rest b l s = absurd (omega arith)
  not_expr-lift [] e h r f (suc g) t rest b l s = absurd h
  not_expr-lift (t' ∷ w) e h r f (suc g) t rest b l s =
      rw (h.0 (omega arith)) (r f (suc g) t rest b l (omega arith))

  unary_expr-lift :
      (w : List (Tok F)) (e : Expr F) → HeadIs (HeadFits 7) w → Reads 7 w e → Reads 6 w e
  unfolding unary_expr peek
  unary_expr-lift w e h r f zero t rest b l s = absurd (omega arith)
  unary_expr-lift [] e h r f (suc g) t rest b l s = absurd h
  unary_expr-lift (t' ∷ w) e h r f (suc g) t rest b l s =
      rw (h.1 (omega arith)) (r f (suc g) t rest b l (omega arith))

  cmp_op-Stops : (t : Tok F) → Stops 3 t → cmp_op t ≡ none
  unfolding binds cmp_op
  cmp_op-Stops t s = ground arith

  cmp_expr-lift : (w : List (Tok F)) (e : Expr F) → Reads 4 w e → Reads 3 w e
  unfolding cmp_expr peek
  cmp_expr-lift w e r f g t rest b l s =
      rw (r f g t rest b l (omega arith)) (rw (cmp_op-Stops t s, then_ok))

  left-lift :
      (p : ℕ) (w : List (Tok F)) (e : Expr F) → is_left p ≡ true → Reads (suc p) w e → Reads p w e
  left-lift p w e left r = Reads-StartsLoop p w e left (StartsLoop-Reads p w e r)

  level-lift :
      (p : ℕ) (w : List (Tok F)) (e : Expr F)
      → p < 7
      → HeadIs (HeadFits (suc p)) w
      → Reads (suc p) w e
      → Reads p w e
  level-lift zero w e b h r = left-lift 0 w e refl r
  level-lift (suc zero) w e b h r = left-lift 1 w e refl r
  level-lift (suc (suc zero)) w e b h r = not_expr-lift w e h r
  level-lift (suc (suc (suc zero))) w e b h r = cmp_expr-lift w e r
  level-lift (suc (suc (suc (suc zero)))) w e b h r = left-lift 4 w e refl r
  level-lift (suc (suc (suc (suc (suc zero))))) w e b h r = left-lift 5 w e refl r
  level-lift (suc (suc (suc (suc (suc (suc zero)))))) w e b h r = unary_expr-lift w e h r
  level-lift _ w e b h r = absurd (omega arith)

  pub HeadFits-down :
      (p q : ℕ) (w : List (Tok F)) → p ≤ q → HeadIs (HeadFits q) w → HeadIs (HeadFits p) w
  HeadFits-down p q [] b h = h
  HeadFits-down p q (t ∷ w) b h = (λ l. h.0 (omega arith), λ l. h.1 (omega arith), h.2)

  -- What reads at a level reads at every lower one.
  pub Reads-down :
      (q p : ℕ) (w : List (Tok F)) (e : Expr F)
      → p ≤ q
      → q ≤ 7
      → HeadIs (HeadFits q) w
      → Reads q w e
      → Reads p w e
  Reads-down zero p w e b c h r = let z : p ≡ 0 = omega arith in rw z r
  Reads-down (suc q) p w e b c h r = elim (Bool-cases (p == suc q)) [
    | inl same ↦ let z : p ≡ suc q = ground arith in rw z r
    | inr other ↦
        Reads-down q p w e (ground arith) (omega arith) (HeadFits-down q (suc q) w (omega arith) h)
          (level-lift q w e (omega arith) h r)
  ]

  -- An expression that is read whole is read in parentheses, as the start of a postfix chain.
  pub paren-StartsPostfix :
      (w : List (Tok F)) (e : Expr F)
      → Reads 0 w e
      → StartsPostfix (Tok.lparen ∷ (w ++ Tok.rparen ∷ [])) e
  unfolding postfix or_expr binds
  paren-StartsPostfix w e r zero g t rest b l s = absurd (omega arith)
  paren-StartsPostfix w e r (suc f) g t rest b l s =
      let split = append_assoc w (Tok.rparen ∷ []) (t ∷ rest) in
      let short = ap length split in
      (
        g,
        omega (arith, length-append w (Tok.rparen ∷ t ∷ rest)),
        rw (
          split,
          step-cons Tok.lparen w Tok.rparen (t ∷ rest),
          r f (suc f) Tok.rparen (t ∷ rest) (omega arith) (omega arith) (omega arith),
        ),
      )

  -- A chain that is started ends in front of a token that is no bracket.
  pub Reads-StartsPostfix : (w : List (Tok F)) (e : Expr F) → StartsPostfix w e → Reads 7 w e
  unfolding postfix_loop binds peek
  Reads-StartsPostfix w e r f g t rest b l s =
      let (k, enough, run) = r f g t rest b l (omega arith) in
      let positive : k ≡ suc (k - 1) = omega arith in
      let no_bracket : is_lbracket t ≡ false = ground arith in rw (run, positive, no_bracket)
