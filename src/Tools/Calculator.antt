-- ===== src/Tools/Calculator.antt =====
-- agent_tools.py, `_calculator` and `_safe_eval_node`: the evaluation of a syntax tree by a table of
-- operators and functions. The parser of Python and its numbers are parameters.
pub mod Meaning
mod Examples
use ai_chat_bot_v.Base.{
  ℕ, Bool, true, false, ◌&&◌, List, [], ◌∷◌, ◌++◌, String, Option, none, some, str_eq, any, length,
  ltb, if◌then◌else◌,
}
use ai_chat_bot_v.Base.Text.{Text, codes, strip, is_empty}
use ai_chat_bot_v.Base.Dict.{Dict, lookup}
use ai_chat_bot_v.CostRouter.Score.{occurs_in}

-- What is raised, by the clauses of `_calculator` that tell it apart.
pub data Raised : Type 0 where
  zero_division : Raised
  value_error : Text → Raised
  syntax_error : Raised
  other_error : Text → Raised

pub data Computed {ℓ} (A : Type ℓ) : Type ℓ where
  value : A → Computed A
  raised : Raised → Computed A

infixl 5 ◌>>=◌
abbrev pub ◌>>=◌ {ℓ κ} : {A : Type ℓ} {B : Type κ} → Computed A → (A → Computed B) → Computed B
value a >>= f = f a
raised e >>= f = raised e

-- The functions of `_SAFE_OPS`.
pub data Operation : Type 0 where
  add sub mul truediv floordiv mod_ pow neg pos : Operation

-- `_SAFE_OPS`, by the names of the types of `ast`.
abbrev pub safe_ops : Dict Operation
safe_ops =
    ("Add", add)
    ∷ ("Sub", sub)
    ∷ ("Mult", mul)
    ∷ ("Div", truediv)
    ∷ ("FloorDiv", floordiv)
    ∷ ("Mod", mod_)
    ∷ ("Pow", pow)
    ∷ ("USub", neg)
    ∷ ("UAdd", pos)
    ∷ []

-- The keys of `_SAFE_MATH_FUNCS`.
abbrev pub safe_math_funcs : List String
safe_math_funcs = "abs" ∷ "round" ∷ "min" ∷ "max" ∷ []

-- What the evaluation tells apart in a tree of `ast`; operators and other nodes have the names of
-- their types. The keywords of a call are never read.
mutual
  pub data Expr (Number : Type 0) : Type 0 where
    number : Number → Expr Number
    constant : (type_name : String) → Expr Number
    bin_op : (op : String) → (left right : Expr Number) → Expr Number
    unary_op : (op : String) → (operand : Expr Number) → Expr Number
    call : (func_name : String) → (args : Exprs Number) → Expr Number
    call_of : Expr Number
    other : (type_name : String) → Expr Number

  pub data Exprs (Number : Type 0) : Type 0 where
    end : Exprs Number
    arg : Expr Number → Exprs Number → Exprs Number

-- The numbers of Python, with what is done to them; `parse` is `ast.parse(t, mode="eval").body`.
pub record Python : Type 1 where
  pub Number : Type 0
  pub parse : Text → Computed (Expr Number)
  pub operate : Operation → List Number → Computed Number
  pub apply : (func_name : String) → List Number → Computed Number
  -- `abs(n) > 100`, `n == 0`
  pub exceeds : Number → Bool
  pub is_zero : Number → Bool
  -- `isinstance(n, float)`, `n.is_integer()`, `str(int(n))`, `f"{n:.10g}"`, `str(n)`
  pub is_float : Number → Bool
  pub is_integer : Number → Bool
  pub show_int : Number → Computed Text
  pub show_10g : Number → Computed Text
  pub show : Number → Computed Text

-- The texts of the errors.
abbrev pub quoted : String → String → String → Raised
quoted before name after = value_error (codes before ++ codes name ++ codes after)

-- What is read of a table, or the error.
abbrev pub found {ℓ} : {A : Type ℓ} → Option A → Raised → Computed A
found (some a) e = value a
found none e = raised e

abbrev pub function_error : String → Raised
function_error f = quoted "Function '" f "' is not allowed. Allowed: ['abs', 'round', 'min', 'max']"

-- The clauses that catch what is raised.
abbrev pub error_text : Raised → Text
error_text zero_division = codes "Division by zero"
error_text (value_error e) = e
error_text syntax_error = codes "Invalid mathematical expression"
error_text (other_error e) = e

abbrev pub answer_of : Computed Text → Text
answer_of (value t) = t
answer_of (raised e) = codes "Error: " ++ error_text e

abbrev pub forbidden : List String
forbidden = "import" ∷ "exec" ∷ "eval" ∷ "__" ∷ "open" ∷ "os." ∷ "sys." ∷ []

-- What is refused before the text is parsed.
abbrev pub refused : Text → Option Text
refused t =
    if is_empty t
    then some (codes "Empty expression")
    else if ltb 500 (length t)
    then some (codes "Expression too long (max 500 characters)")
    else if any (λ f. occurs_in (codes f) t) forbidden
    then some (codes "Forbidden expression")
    else none

module _ (python : Python) where
  open python use {Number}

  -- The two tests before an operator is applied.
  abbrev pub guarded : (op : String) → (right : Number) → Computed Number → Computed Number
  guarded op right result =
      if str_eq op "Pow" && python.exceeds right
      then raised (value_error (codes "Exponent too large (max 100)"))
      else if str_eq op "Div" && python.is_zero right
      then raised (value_error (codes "Division by zero"))
      else result

  -- A function of the table, applied.
  abbrev pub applied : (func_name : String) → Computed (List Number) → Computed Number
  applied f (value ns) = python.apply f ns
  applied f (raised e) = raised e

  unfoldable mutual
    pub safe_eval_node : Expr Number → Computed Number
    safe_eval_node (number n) = value n
    safe_eval_node (constant type_name) =
        raised (quoted "Only numeric constants allowed, got: " type_name "")
    safe_eval_node (bin_op op l r) = do
      op_fn ← found (lookup op safe_ops) (quoted "Operator '" op "' is not allowed")
      left ← safe_eval_node l
      right ← safe_eval_node r
      guarded op right (python.operate op_fn (left ∷ right ∷ []))
    safe_eval_node (unary_op op e) = do
      op_fn ← found (lookup op safe_ops) (quoted "Unary operator '" op "' is not allowed")
      operand ← safe_eval_node e
      python.operate op_fn (operand ∷ [])
    safe_eval_node (call f args) =
        let result = applied f (eval_args args) in
        if any (str_eq f) safe_math_funcs then result else raised (function_error f)
    safe_eval_node call_of = raised (value_error (codes "Function calls are restricted"))
    safe_eval_node (other type_name) = raised (quoted "Unsupported expression type: " type_name "")

    pub eval_args : Exprs Number → Computed (List Number)
    eval_args end = value []
    eval_args (arg e es) = do n ← safe_eval_node e; ns ← eval_args es; value (n ∷ ns)

  -- The printing of a result.
  abbrev pub printed : Number → Computed Text
  printed n =
      if python.is_float n
      then (if python.is_integer n then python.show_int n else python.show_10g n)
      else python.show n

  -- The `try` block.
  unfoldable pub evaluate : Text → Computed Text
  evaluate t = do tree ← python.parse t; n ← safe_eval_node tree; printed n

  abbrev pub unless_refused : Option Text → Text → Text
  unless_refused (some e) t = codes "Error: " ++ e
  unless_refused none t = answer_of (evaluate t)

  unfoldable pub calculator : Text → Text
  unfolding occurs_in
  calculator expression = unless_refused (refused (strip expression)) (strip expression)
