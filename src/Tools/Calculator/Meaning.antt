-- ===== src/Tools/Calculator/Meaning.antt =====
-- agent_tools.py, `_calculator`: what an expression means, apart from the way it is evaluated.
use ai_chat_bot_v.Base.{
  ◌≡◌, refl, ◌↔◌, ◌⊎◌, inl, inr, Bool, true, false, ◌&&◌, List, [], ◌∷◌, ◌++◌, String, Option, none,
  some, str_eq, any, if◌then◌else◌,
}
use ai_chat_bot_v.Base.Text.{Text, codes, strip}
use ai_chat_bot_v.Base.Dict.{lookup}
use ai_chat_bot_v.Tools.Calculator.{
  Raised, Computed, value, raised, ◌>>=◌, found, Operation, safe_ops, safe_math_funcs, Expr, number,
  constant, bin_op, unary_op, call, call_of, other, Exprs, end, arg, Python, applied,
  safe_eval_node, eval_args, printed, error_text, answer_of, refused, unless_refused, evaluate,
  calculator,
}

pub >>=-eq-value {ℓ κ} :
    {A : Type ℓ} {B : Type κ} (m : Computed A) (f : A → Computed B) {b : B}
    → (m >>= f) ≡ value b
    → (a : A) × (m ≡ value a) × (f a ≡ value b)
>>=-eq-value (value a) f h = (a, refl, h)
>>=-eq-value (raised e) f h = cc

found-eq-value {ℓ} :
    {A : Type ℓ} (o : Option A) (e : Raised) {a : A} → found o e ≡ value a → o ≡ some a
found-eq-value none e h = cc
found-eq-value (some a) e h = cc

-- What two tests let through, each of which raises.
tests-eq-value {ℓ} :
    {A : Type ℓ} (p q : Bool) (d e : Raised) (c : Computed A) {a : A}
    → (if p then raised d else if q then raised e else c) ≡ value a
    → (p ≡ false) × (q ≡ false) × (c ≡ value a)
tests-eq-value true q d e c h = cc
tests-eq-value false true d e c h = cc
tests-eq-value false false d e c h = (refl, refl, h)

module _ (python : Python) where
  open python use {Number}

  -- `Means e n`: the expression has only numbers, operators of the table and its functions, and `n`
  -- is its value; no power has an exponent beyond 100, and no division a divisor of zero.
  unfoldable mutual
    pub Means : Expr Number → Number → Type 0
    Means (number m) n = m ≡ n
    Means (constant type_name) n = ⊥
    Means (bin_op op l r) n =
        (f : Operation) × (a b : Number) × (lookup op safe_ops ≡ some f)
        × Means l a
        × Means r b
        × ((str_eq op "Pow" && python.exceeds b) ≡ false)
        × ((str_eq op "Div" && python.is_zero b) ≡ false)
        × (python.operate f (a ∷ b ∷ []) ≡ value n)
    Means (unary_op op e) n =
        (f : Operation) × (a : Number) × (lookup op safe_ops ≡ some f)
        × Means e a
        × (python.operate f (a ∷ []) ≡ value n)
    Means (call f args) n =
        (ns : List Number) × (any (str_eq f) safe_math_funcs ≡ true)
        × MeanAll args ns
        × (python.apply f ns ≡ value n)
    Means call_of n = ⊥
    Means (other type_name) n = ⊥

    pub MeanAll : Exprs Number → List Number → Type 0
    MeanAll end ns = ns ≡ []
    MeanAll (arg e es) ns =
        (m : Number) × (ms : List Number) × Means e m × MeanAll es ms × (ns ≡ m ∷ ms)

  allowed-eq-value :
      (f : String) (ok : Bool) (e : Raised) (args : Computed (List Number)) {n : Number}
      → (if ok then applied python f args else raised e) ≡ value n
      → (ns : List Number) × (ok ≡ true) × (args ≡ value ns) × (python.apply f ns ≡ value n)
  allowed-eq-value f true e (value ns) h = (ns, refl, refl, h)
  allowed-eq-value f true e (raised r) h = cc
  allowed-eq-value f false e args h = cc

  mutual
    unfolding Means safe_eval_node

    eval-Means : (e : Expr Number) (n : Number) → safe_eval_node python e ≡ value n → Means e n
    eval-Means (number m) n h = cc
    eval-Means (constant type_name) n h = cc
    eval-Means (bin_op op l r) n h =
        let (f, hf, h₁) = >>=-eq-value (found (lookup op safe_ops) _) _ h in
        let (a, ha, h₂) = >>=-eq-value (safe_eval_node python l) _ h₁ in
        let (b, hb, h₃) = >>=-eq-value (safe_eval_node python r) _ h₂ in
        let (p, d, e) = tests-eq-value (str_eq op "Pow" && python.exceeds b) _ _ _ _ h₃ in
        (f, a, b, found-eq-value _ _ hf, eval-Means l a ha, eval-Means r b hb, p, d, e)
    eval-Means (unary_op op e) n h =
        let (f, hf, h₁) = >>=-eq-value (found (lookup op safe_ops) _) _ h in
        let (a, ha, h₂) = >>=-eq-value (safe_eval_node python e) _ h₁ in
        (f, a, found-eq-value _ _ hf, eval-Means e a ha, h₂)
    eval-Means (call f args) n h =
        let (ns, ok, hns, e) = allowed-eq-value f _ _ (eval_args python args) h in
        (ns, ok, eval_args-MeanAll args ns hns, e)
    eval-Means call_of n h = cc
    eval-Means (other type_name) n h = cc

    eval_args-MeanAll :
        (es : Exprs Number) (ns : List Number) → eval_args python es ≡ value ns → MeanAll es ns
    eval_args-MeanAll end ns h = cc
    eval_args-MeanAll (arg e es) ns h =
        let (m, hm, h₁) = >>=-eq-value (safe_eval_node python e) _ h in
        let (ms, hms, h₂) = >>=-eq-value (eval_args python es) _ h₁ in
        (m, ms, eval-Means e m hm, eval_args-MeanAll es ms hms, cc)

  mutual
    unfolding Means safe_eval_node

    Means-eval : (e : Expr Number) (n : Number) → Means e n → safe_eval_node python e ≡ value n
    Means-eval (number m) n h = cc
    Means-eval (constant type_name) n h = absurd h
    Means-eval (bin_op op l r) n (f, a, b, hf, ha, hb, p, d, e) =
        rw (hf, Means-eval l a ha, Means-eval r b hb, p, d) e
    Means-eval (unary_op op e) n (f, a, hf, ha, h) = rw (hf, Means-eval e a ha) h
    Means-eval (call f args) n (ns, ok, hns, h) = rw (ok, MeanAll-eval_args args ns hns) h
    Means-eval call_of n h = absurd h
    Means-eval (other type_name) n h = absurd h

    MeanAll-eval_args :
        (es : Exprs Number) (ns : List Number) → MeanAll es ns → eval_args python es ≡ value ns
    MeanAll-eval_args end ns h = cc
    MeanAll-eval_args (arg e es) ns (m, ms, hm, hms, h) =
        rw (Means-eval e m hm, MeanAll-eval_args es ms hms) (cc)

  -- An expression has a value exactly when it means one, which it has then.
  pub safe_eval_node-Means :
      (e : Expr Number) (n : Number) → (safe_eval_node python e ≡ value n) ↔ Means e n
  safe_eval_node-Means e n = (eval-Means e n, Means-eval e n)

  evaluate-Answers :
      (t : Text) (r : Computed Text)
      → evaluate python t ≡ r
      → refused t ≡ none
      → ((e : Text) × (answer_of r ≡ codes "Error: " ++ e))
        ⊎ ((e : Expr Number) × (n : Number) × (refused t ≡ none)
            × (python.parse t ≡ value e)
            × Means e n
            × (printed python n ≡ value (answer_of r)))
  unfolding evaluate
  evaluate-Answers t (raised e) h ok = inl (error_text e, refl)
  evaluate-Answers t (value s) h ok =
      let (e, he, h₁) = >>=-eq-value (python.parse t) _ h in
      let (n, hn, h₂) = >>=-eq-value (safe_eval_node python e) _ h₁ in
      inr (e, n, ok, he, eval-Means e n hn, h₂)

  checked-Answers :
      (t : Text) (o : Option Text)
      → refused t ≡ o
      → ((e : Text) × (unless_refused python o t ≡ codes "Error: " ++ e))
        ⊎ ((e : Expr Number) × (n : Number) × (refused t ≡ none)
            × (python.parse t ≡ value e)
            × Means e n
            × (printed python n ≡ value (unless_refused python o t)))
  checked-Answers t (some e) h = inl (e, refl)
  checked-Answers t none h = evaluate-Answers t (evaluate python t) refl h

  -- An answer of the calculator is an error, or the text is of 500 characters at most and without the
  -- words that are forbidden, it is the text of an expression that means a number, and the answer is
  -- the number's printing.
  pub calculator-Answers :
      (t : Text)
      → ((e : Text) × (calculator python t ≡ codes "Error: " ++ e))
        ⊎ ((e : Expr Number) × (n : Number) × (refused (strip t) ≡ none)
            × (python.parse (strip t) ≡ value e)
            × Means e n
            × (printed python n ≡ value (calculator python t)))
  unfolding calculator
  calculator-Answers t = checked-Answers (strip t) (refused (strip t)) refl

  -- Where the stripped text is not refused before it is parsed, and is that of an expression that means
  -- a number which can be printed, the printing is the answer.
  pub calculator-eq-printed :
      (t : Text) (e : Expr Number) (n : Number) (s : Text)
      → refused (strip t) ≡ none
      → python.parse (strip t) ≡ value e
      → Means e n
      → printed python n ≡ value s
      → calculator python t ≡ s
  unfolding calculator evaluate
  calculator-eq-printed t e n s ok he hn hs = rw (ok, he, Means-eval e n hn, hs) refl
