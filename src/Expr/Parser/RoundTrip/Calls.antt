-- ===== src/Expr/Parser/RoundTrip/Calls.antt =====
-- Reading the parts in brackets: an index, and the arguments of a call.
use potato_etl.Base.{
  ℕ, zero, suc, ◌-◌, ◌<◌, ◌≡◌, refl, ap, ◌∙◌, false, List, [], ◌∷◌, ◌++◌, Text, length, arith, ok,
  append_assoc, length-append,
}
use potato_etl.Unicode.{Unicode}
use potato_etl.Expr.Syntax.{Tok, Expr, Args, no_args, arg}
use potato_etl.Expr.Parser.{
  Parser, peek, is_rparen, more_args, call_args, call, primary_ident, postfix_loop, postfix,
  or_expr,
}
use potato_etl.Expr.Parser.Printer.{print_body, print_args, print_more, is_reserved}
use potato_etl.Expr.Parser.RoundTrip.Levels.{
  step-cons, HeadIs, binds, Stops, Reads, StartsPostfix, HeadFits,
}
use potato_etl.Expr.Parser.RoundTrip.Atoms.{keyword-not_reserved}

module _ (u : Unicode) {F : Type 0} where
  postfix_loop_round :
      (or_expr : Parser F (Expr F)) (k : ℕ) (e i : Expr F) (w : List (Tok F)) (t : Tok F)
      (rest : List (Tok F))
      → 0 < k
      → or_expr (w ++ Tok.rbracket ∷ t ∷ rest) ≡ ok (i, Tok.rbracket ∷ t ∷ rest)
      → postfix_loop u or_expr k e (Tok.lbracket ∷ (w ++ Tok.rbracket ∷ t ∷ rest))
        ≡ postfix_loop u or_expr (k - 1) (Expr.index e i) (t ∷ rest)
  unfolding postfix_loop peek
  postfix_loop_round or_expr zero e i w t rest p h = elim p [ ]
  postfix_loop_round or_expr (suc k) e i w t rest p h =
      let same : suc k - 1 ≡ k = omega arith in
      rw (same, step-cons Tok.lbracket w Tok.rbracket (t ∷ rest), h)

  -- A whole expression is read by the nested parser, with fuel above its tokens.
  pub nested-Reads :
      (w : List (Tok F)) (e : Expr F)
      → Reads u 0 w e
      → (f : ℕ) (t : Tok F) (rest : List (Tok F)) → length (w ++ t ∷ rest) < f
      → Stops u 0 t
      → or_expr u f (w ++ t ∷ rest) ≡ ok (e, t ∷ rest)
  unfolding or_expr
  nested-Reads w e r zero t rest b s = elim b [ ]
  nested-Reads w e r (suc f) t rest b s = r f (suc f) t rest (omega arith) (omega arith) s

  -- The expression in brackets behind another.
  pub index-StartsPostfix :
      (w v : List (Tok F)) (e i : Expr F)
      → StartsPostfix u w e
      → Reads u 0 v i
      → StartsPostfix u (w ++ Tok.lbracket ∷ (v ++ Tok.rbracket ∷ [])) (Expr.index e i)
  unfolding binds
  index-StartsPostfix w v e i c r f g t rest bf bg s =
      let inner = append_assoc v (Tok.rbracket ∷ []) (t ∷ rest) in
      let split =
        append_assoc w (Tok.lbracket ∷ (v ++ Tok.rbracket ∷ [])) (t ∷ rest)
        ∙ ap (λ x. w ++ Tok.lbracket ∷ x) inner in
      let whole = ap length split in
      let sizes = length-append w (Tok.lbracket ∷ (v ++ Tok.rbracket ∷ t ∷ rest)) in
      let sizes' = length-append v (Tok.rbracket ∷ t ∷ rest) in
      let (k, enough, run) =
        c f g Tok.lbracket (v ++ Tok.rbracket ∷ t ∷ rest) (omega arith) (omega arith)
          (omega arith) in
      (
        k - 1,
        omega arith,
        ap (postfix u (or_expr u f) g) split
            ∙ (run
                ∙ postfix_loop_round (or_expr u f) k e i v t rest (omega arith)
                    (nested-Reads v i r f Tok.rbracket (t ∷ rest) (omega arith) (omega arith))),
      )

  -- The arguments of a call, and those behind the first.
  abbrev pub ReadsArgs : List (Tok F) → Args F → Type 0
  ReadsArgs w args =
      (f g : ℕ) (t : Tok F) (rest : List (Tok F))
      → length (w ++ t ∷ rest) < f
      → length (w ++ t ∷ rest) < g
      → call_args u (or_expr u f) g (w ++ t ∷ rest) ≡ ok (args, t ∷ rest)

  abbrev pub ReadsMore : List (Tok F) → Args F → Type 0
  ReadsMore w args =
      (f g : ℕ) (t : Tok F) (rest : List (Tok F))
      → length (w ++ t ∷ rest) < f
      → length (w ++ t ∷ rest) < g
      → more_args u (or_expr u f) g (w ++ t ∷ rest) ≡ ok (args, Tok.rparen ∷ t ∷ rest)

  -- What follows an argument begins with a comma or the closing parenthesis.
  pub more-head :
      (args : Args F) (t : Tok F) (rest : List (Tok F))
      → (t' : Tok F) × (rest' : List (Tok F)) × (print_more args ++ t ∷ rest ≡ t' ∷ rest')
        × Stops u 0 t'
  unfolding print_more binds
  more-head no_args t rest = (Tok.rparen, t ∷ rest, refl, omega arith)
  more-head (arg a more) t rest =
      (Tok.comma, (print_body a ++ print_more more) ++ t ∷ rest, refl, omega arith)

  pub more_args-none : ReadsMore (print_more no_args) no_args
  unfolding more_args print_more peek
  more_args-none f zero t rest bf bg = absurd (omega arith)
  more_args-none f (suc g) t rest bf bg = refl

  is_rparen-head :
      (w v : List (Tok F)) → HeadIs (HeadFits u 0) w → is_rparen (peek (w ++ v)) ≡ false
  unfolding peek
  is_rparen-head [] v h = absurd h
  is_rparen-head (t ∷ w) v h = h.2

  -- An argument in front of others.
  first_arg :
      (a : Expr F) (more : Args F)
      → Reads u 0 (print_body a) a
      → (f : ℕ) (t : Tok F) (rest : List (Tok F))
      → length (print_body a ++ (print_more more ++ t ∷ rest)) < f
      → or_expr u f (print_body a ++ (print_more more ++ t ∷ rest))
        ≡ ok (a, print_more more ++ t ∷ rest)
  first_arg a more r f t rest b =
      let (t', rest', e, s) = more-head more t rest in
      rw e (nested-Reads (print_body a) a r f t' rest' (rw e at b) s)

  pub more_args-arg :
      (a : Expr F) (more : Args F)
      → Reads u 0 (print_body a) a
      → ReadsMore (print_more more) more
      → ReadsMore (print_more (arg a more)) (arg a more)
  unfolding more_args print_more peek
  more_args-arg a more r m f zero t rest bf bg = absurd (omega arith)
  more_args-arg a more r m f (suc g) t rest bf bg =
      let split = append_assoc (print_body a) (print_more more) (t ∷ rest) in
      let whole = ap length split in
      let sizes = length-append (print_body a) (print_more more ++ t ∷ rest) in
      let first = first_arg a more r f t rest (omega arith) in
      let others = m f g t rest (omega arith) (omega arith) in
      rw (step-cons Tok.comma (print_body a ++ print_more more) t rest, split, first, others)

  pub args-none : ReadsArgs (print_args no_args) no_args
  unfolding call_args print_args peek
  args-none f g t rest bf bg = refl

  pub args-arg :
      (a : Expr F) (more : Args F)
      → Reads u 0 (print_body a) a
      → HeadIs (HeadFits u 0) (print_body a)
      → ReadsMore (print_more more) more
      → ReadsArgs (print_args (arg a more)) (arg a more)
  unfolding call_args print_args peek
  args-arg a more r h m f g t rest bf bg =
      let split = append_assoc (print_body a) (print_more more) (t ∷ rest) in
      let whole = ap length split in
      let sizes = length-append (print_body a) (print_more more ++ t ∷ rest) in
      let first = first_arg a more r f t rest (omega arith) in
      let others = m f g t rest (omega arith) (omega arith) in
      let open_list = is_rparen-head (print_body a) (print_more more ++ t ∷ rest) h in
      rw (split, open_list, first, others)

  -- A call whose arguments are read.
  pub call-StartsPostfix :
      (func : Text) (w : List (Tok F)) (args : Args F)
      → u.to_lowercase func ≡ func
      → is_reserved u func ≡ false
      → ReadsArgs w args
      → StartsPostfix u (Tok.ident func ∷ Tok.lparen ∷ w) (Expr.call func args)
  unfolding postfix peek call
  call-StartsPostfix func w args lower free r f g t rest bf bg s =
      let sizes = length-append w (t ∷ rest) in
      (
        g,
        omega arith,
        rw (keyword-not_reserved u {F = F} func free, primary_ident)
            (rw (step-cons Tok.lparen w t rest, r f g t rest (omega arith) (omega arith), lower)),
      )
