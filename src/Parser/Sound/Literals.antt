-- ===== src/Parser/Sound/Literals.antt =====
-- The literals of `parse_primary`, src/parser.c, and the names that it looks up.
use claudec.Base.{
  ℕ, zero, suc, ◌<◌, ◌≤◌, Bool, true, false, ◌||◌, Option, none, some, ◌++◌, Bytes, codes, ◌≡◌,
  refl, arith, if◌then◌else◌,
}
use claudec.Ast.{Ast}
use claudec.Lexer.{TokenType}
use claudec.Parser.{Parser, Parsed, done, is, store, size}
use claudec.Parser.Primary.{
  adjacent_strings, string_node, string_primary, int_primary, float_primary, char_primary,
  func_name,
}
use claudec.Parser.Runs.{
  view, Next, Runs, returned, failed, Reads, >>=-Runs, Runs-map, Runs-if, >>=-advance, >>=-expect,
}
use claudec.Parser.Symbols.{Strings, no_more, one_more}
use claudec.Parser.Grammar.{
  Derives, level, integer, float_number, double_number, strings, character, function_name,
}

adjacent_strings-Runs :
    (fuel : ℕ) (s : Bytes) (p : Parser)
    → size p < fuel
    → Runs (λ u w. Strings s (view p) w u) (size p) (adjacent_strings fuel s p)
unfolding adjacent_strings
adjacent_strings-Runs zero s p h = absurd (omega arith)
adjacent_strings-Runs (suc fuel) s p h =
    Runs-if (is TokenType.string_literal p)
      (λ e. >>=-advance TokenType.string_literal p refl e (λ q x d.
        Runs-map (adjacent_strings-Runs fuel (s ++ p.current.value) q (omega arith)) (omega arith)
          (λ u w y. one_more x y)))
      (λ _. returned no_more (omega arith))

abbrev pub Primary : Parser → Parsed (Ast × Parser) → Type 0
Primary p o = Reads (Derives (level 0)) p o

pub string_primary-Reads :
    (p : Parser) → is TokenType.string_literal p ≡ true → Primary p (string_primary p)
unfolding string_primary store size
string_primary-Reads p e = >>=-advance TokenType.string_literal p refl e (λ q x d.
    >>=-Runs (adjacent_strings-Runs (suc (size q)) p.current.value q (omega arith))
      (λ r y le. stored (is TokenType.string_literal q) q r x y (omega arith)))
  where
    stored :
        (b : Bool) (q : Parser) (r : Bytes × Parser)
        → Next TokenType.string_literal (view p) (view q)
        → Strings p.current.value (view q) (view r.1) r.0
        → size r.1 ≤ size p
        → Primary p (done (string_node q r.0, if b then store r.0 r.1 else r.1))
    stored true q r x y le = returned (strings q x y) le
    stored false q r x y le = returned (strings q x y) le

pub int_primary-Reads : (p : Parser) → Primary p (int_primary p)
unfolding int_primary
int_primary-Reads p =
    >>=-expect TokenType.int_literal p refl _ (λ q x d. returned (integer q x) (omega arith))

pub float_primary-Reads :
    (p : Parser) (b : Bool)
    → is TokenType.float_literal p ≡ b
    → is TokenType.float_literal p || is TokenType.double_literal p ≡ true
    → Primary p (float_primary p)
unfolding float_primary
float_primary-Reads p true e h =
    >>=-advance TokenType.float_literal p refl e
      (λ q x d. returned (rw e (float_number q x)) (omega arith))
float_primary-Reads p false e h =
    >>=-advance TokenType.double_literal p refl (rw e at h)
      (λ q x d. returned (rw e (double_number q x)) (omega arith))

pub char_primary-Reads :
    (p : Parser) → is TokenType.char_literal p ≡ true → Primary p (char_primary p)
unfolding char_primary
char_primary-Reads p e =
    >>=-advance TokenType.char_literal p refl e (λ q x d. returned (character q x) (omega arith))

pub func_name-Reads :
    (o : Option Bytes) (p : Parser)
    → p.current_func_name ≡ o
    → is TokenType.identifier p ≡ true
    → p.current.value ≡ codes "__func__"
    → Primary p (func_name o p)
unfolding store size
func_name-Reads none p f e h = failed
func_name-Reads (some name) p f e h =
    >>=-advance TokenType.identifier p refl e
      (λ q x d. returned (function_name q name h f x) (omega arith))
