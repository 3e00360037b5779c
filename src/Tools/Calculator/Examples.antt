-- ===== src/Tools/Calculator/Examples.antt =====
-- agent_tools.py: the calculator at an expression, over natural numbers.
use ai_chat_bot_v.Base.{
  ℕ, ◌+◌, ◌^◌, ◌≡◌, refl, ◌⊎◌, true, false, List, [], ◌∷◌, ◌++◌, none, str_eq, ltb, ◌==◌, max,
  if◌then◌else◌,
}
use ai_chat_bot_v.Base.Text.{Text, codes, strip, same_text, is_space}
use ai_chat_bot_v.Base.Text.Decimal.{decimal}
use ai_chat_bot_v.Tools.Calculator.{
  Computed, value, raised, syntax_error, other_error, zero_division, Operation, add, pow, Expr,
  number, bin_op, call, call_of, end, arg, Python, refused, printed, evaluate, safe_eval_node,
  calculator,
}
use ai_chat_bot_v.Tools.Calculator.Meaning.{Means, calculator-Answers, calculator-eq-printed}

abbrev operate_ℕ : Operation → List ℕ → Computed ℕ
operate_ℕ add (a ∷ b ∷ []) = value (a + b)
operate_ℕ pow (a ∷ b ∷ []) = value (a ^ b)
operate_ℕ _ _ = raised (other_error (codes "unsupported"))

abbrev apply_ℕ : List ℕ → Computed ℕ
apply_ℕ (a ∷ b ∷ []) = value (max a b)
apply_ℕ _ = raised (other_error (codes "unsupported"))

abbrev expression : Text
expression = codes " 2 ** 3 + max(1, 4) "

abbrev tree : Expr ℕ
tree =
    bin_op "Add" (bin_op "Pow" (number 2) (number 3))
      (call "max" (arg (number 1) (arg (number 4) end)))

abbrev small_python : Python
small_python = record {
  Number = ℕ;
  parse = λ t.
      if same_text t (strip expression)
      then value tree
      else if same_text t (codes "f(1)(2)")
      then value call_of
      else raised syntax_error;
  operate = operate_ℕ;
  apply = λ f ns. if str_eq f "max" then apply_ℕ ns else raised zero_division;
  exceeds = λ n. ltb 100 n;
  is_zero = λ n. n == 0;
  is_float = λ n. false;
  is_integer = λ n. true;
  show_int = λ n. value (decimal n);
  show_10g = λ n. value (decimal n);
  show = λ n. value (decimal n);
}

calculator-Answers_example :
    ((e : Text) × (calculator small_python expression ≡ codes "Error: " ++ e))
    ⊎ ((e : Expr ℕ) × (n : ℕ) × (refused (strip expression) ≡ none)
        × (small_python.parse (strip expression) ≡ value e)
        × Means small_python e n
        × (printed small_python n ≡ value (calculator small_python expression)))
calculator-Answers_example = calculator-Answers small_python expression

calculator-eq-printed_example : calculator small_python expression ≡ codes "12"
unfolding calculator Means decimal same_text strip is_space
calculator-eq-printed_example =
    calculator-eq-printed small_python expression tree 12 (codes "12") refl refl
      (
        add,
        8,
        4,
        refl,
        (pow, 2, 3, refl, refl, refl, refl, refl, refl),
        (1 ∷ 4 ∷ [], refl, (1, 4 ∷ [], refl, (4, [], refl, refl, refl), refl), refl),
        refl,
        refl,
        refl,
      )
      refl

calculator_empty : calculator small_python (codes "  ") ≡ codes "Error: Empty expression"
unfolding calculator strip is_space
calculator_empty = refl

calculator_restricted :
    calculator small_python (codes "f(1)(2)") ≡ codes "Error: Function calls are restricted"
unfolding calculator strip same_text is_space evaluate safe_eval_node
calculator_restricted = refl

calculator_forbidden :
    calculator small_python (codes "__import__('os')") ≡ codes "Error: Forbidden expression"
unfolding calculator strip is_space
calculator_forbidden = refl
