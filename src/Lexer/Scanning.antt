-- ===== src/Lexer/Scanning.antt =====
-- The loop over the tokens comes to an end.
use claudec.Base.{
  ℕ, zero, suc, ◌<◌, true, false, List, [], ◌∷◌, length, ◌≡◌, refl, ap, inl, inr, arith, Bool-cases,
  length-drop, Bytes,
}
use claudec.Memory.{Outcome, ok, fatal, stuck, ◌>>=◌, Ensures-ok}
use claudec.Lexer.{Token, Lexer}
use claudec.Lexer.Next.{lexer_next_token, is_eof, all_tokens}
use claudec.Lexer.Progress.{Passed, lexer_next_token-Passed}

-- What the loop gives, without fuel: the tokens up to the end of the file, or how a call ended before.
pub data Scanned : Lexer → Outcome (List Token) → Type 0 where
  at_end :
      {l l' : Lexer} {t : Token}
      → lexer_next_token l ≡ ok (t, l')
      → is_eof t.token_type ≡ true
      → Scanned l (ok (t ∷ []))
  next :
      {l l' : Lexer} {t : Token} {o : Outcome (List Token)}
      → lexer_next_token l ≡ ok (t, l')
      → is_eof t.token_type ≡ false
      → Scanned l' o
      → Scanned l (o >>= λ ts. ok (t ∷ ts))
  fails : {l : Lexer} {m : Bytes} → lexer_next_token l ≡ fatal m → Scanned l (fatal m)
  breaks : {l : Lexer} → lexer_next_token l ≡ stuck → Scanned l stuck

-- More than the length of the text is enough fuel: `all_tokens` calls `lexer_next_token` until it gives
-- the end of the file or fails, and gives what these calls give.
pub all_tokens-Scanned :
    (fuel : ℕ) (l : Lexer) → length l.rest < fuel → Scanned l (all_tokens fuel l)
unfolding all_tokens
all_tokens-Scanned zero l h = absurd (omega arith)
all_tokens-Scanned (suc fuel) l h =
    by_call (λ l'. all_tokens-Scanned fuel l') (lexer_next_token l) refl
  where
    fewer :
        (t : Token) (l' : Lexer)
        → is_eof t.token_type ≡ false
        → Passed l (t, l')
        → length l'.rest < fuel
    fewer t l' d (inl (e, i)) = cc
    fewer t l' d (inr (n, k, m)) =
        let size = ap length m.rest_is in let i = m.inside in omega (arith, length-drop n l.rest)

    by_call :
        ((l' : Lexer) → length l'.rest < fuel → Scanned l' (all_tokens fuel l'))
        → (o : Outcome (Token × Lexer)) → lexer_next_token l ≡ o
        → Scanned l (all_tokens (suc fuel) l)
    by_call k (fatal m) e = rw e (fails e)
    by_call k stuck e = rw e (breaks e)
    by_call k (ok (t, l')) e = elim (Bool-cases (is_eof t.token_type)) [
      | inl d ↦ rw (e, d) (at_end e d)
      | inr d ↦
          rw (e, d) (next e d (k l' (fewer t l' d (Ensures-ok (lexer_next_token-Passed l) e))))
    ]
