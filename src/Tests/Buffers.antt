-- ===== src/Tests/Buffers.antt =====
-- The same for the passes over text: the peephole pass and the character buffer.
use claudec.Base.{
  true, str_eq, ◌++◌, ℕ, zero, suc, ◌+◌, ◌≤◌, some, List, [], ◌∷◌, ◌≡◌, none, ◌≢◌, refl, ap, arith,
  Bytes, codes, length, take, subst,
}
use claudec.Peephole.Engine.{
  peephole_builtin_patterns, peephole_apply, peephole_loop, first_match, spliced,
}
use claudec.Peephole.Registers.{
  match_zero_reg, replace_zero_reg, zr_find_reg, zr_scan, zr_is, zero_reg_line,
}
use claudec.Peephole.Moves.{
  match_nop_move, replace_nop_move, is_same_move, match_push_pop, replace_push_pop, push_reg,
  pop_reg, pp_extract_reg, move_line,
}
use claudec.Peephole.Jumps.{
  match_dead_jump, replace_dead_jump, pp_parse_jmp_label, pp_parse_label_def, jump_target,
  strip_end,
}
use claudec.Peephole.Engine.Sound.{peephole_apply_sound}
use claudec.Peephole.Engine.Builtin.{
  Shrinks, Shrinks-IsCongruence, builtin-AllSound, peephole_apply-builtin,
}
use claudec.Peephole.Text.{
  strncat_within, indent, is_blank, passed, rest_after, strip_prefix, copied,
}
use claudec.Peephole.Slots.{
  replace_redundant_reload, replace_redundant_store, Slot, match_redundant_reload,
  match_redundant_store, pp_parse_store_rbp, pp_parse_reload_rbp,
}
use claudec.Peephole.Shapes.{store_text, reload_text, match_redundant_reload-eq}
use claudec.Memory.{ok, Realloc, IsRealloc, Ends}
use claudec.StrBuf.{StrBuf, strbuf_append_char, strbuf_append_n, strbuf_null_terminate}
use claudec.StrBuf.Room.{IsBuffer}
use claudec.StrBuf.Finish.{IsTerminated, strbuf_null_terminate-Ends, strbuf_append_n-succeeds}
use claudec.StrBuf.Append.{IsAppended, TooMuch, strbuf_append_char-Ends, strbuf_append_n-Ends}

abbrev program : List Bytes
program =
    codes "    push rax"
    ∷ codes "    pop rbx"
    ∷ codes "    mov rcx, 0"
    ∷ codes "    jmp .L1"
    ∷ codes ".L1:"
    ∷ codes "    mov [rbp - 8], rax"
    ∷ codes "    mov rax, [rbp - 8]"
    ∷ codes "    mov rdx, rdx"
    ∷ codes "    ret"
    ∷ []

abbrev shorter_program : List Bytes
shorter_program =
    codes "    mov rbx, rax"
    ∷ codes "    xor ecx, ecx"
    ∷ codes ".L1:"
    ∷ codes "    mov [rbp - 8], rax"
    ∷ codes "    ret"
    ∷ []

peephole_run : peephole_apply peephole_builtin_patterns program ≡ some shorter_program
unfolding peephole_apply peephole_loop first_match spliced peephole_builtin_patterns match_zero_reg
    replace_zero_reg zr_find_reg zr_scan zr_is zero_reg_line match_nop_move replace_nop_move
    is_same_move match_push_pop replace_push_pop push_reg pop_reg pp_extract_reg move_line
    match_redundant_reload replace_redundant_reload match_redundant_store replace_redundant_store
    pp_parse_store_rbp pp_parse_reload_rbp match_dead_jump replace_dead_jump pp_parse_jmp_label
    pp_parse_label_def jump_target strip_end passed rest_after strip_prefix copied strncat_within
    indent str_eq
peephole_run = refl

peephole_apply_sound_example :
    (lines' : List Bytes) × (peephole_apply peephole_builtin_patterns program ≡ some lines')
    × Shrinks program lines'
peephole_apply_sound_example =
    peephole_apply_sound Shrinks Shrinks-IsCongruence peephole_builtin_patterns builtin-AllSound
      program

peephole_apply-builtin_example :
    (lines' : List Bytes) × (peephole_apply peephole_builtin_patterns program ≡ some lines')
    × (length lines' ≤ length program)
peephole_apply-builtin_example = peephole_apply-builtin program

abbrev store_line : Bytes
store_line = codes "    mov [rbp - 8], rax"

abbrev reload_line : Bytes
reload_line = codes "    mov rax, [rbp - 8]"

reload_fires : match_redundant_reload (store_line ∷ reload_line ∷ []) ≡ true
unfolding match_redundant_reload pp_parse_store_rbp pp_parse_reload_rbp passed rest_after
    strip_prefix copied str_eq
reload_fires = refl

store_fires : match_redundant_store (store_line ∷ store_line ∷ []) ≡ true
unfolding match_redundant_store pp_parse_store_rbp passed rest_after strip_prefix copied str_eq
store_fires = refl

match_redundant_reload-eq_example :
    (s : Slot) × (store_line ≡ passed is_blank store_line ++ store_text s)
    × (reload_line ≡ passed is_blank reload_line ++ reload_text s)
match_redundant_reload-eq_example = match_redundant_reload-eq store_line reload_line reload_fires

-- An allocator that never refuses: the new bytes are 0.
abbrev pub resized : ℕ → Bytes → Bytes
resized zero p = []
resized (suc n) [] = 0 ∷ resized n []
resized (suc n) (x ∷ xs) = x ∷ resized n xs

length-resized : (n : ℕ) (p : Bytes) → length (resized n p) ≡ n
length-resized zero p = refl
length-resized (suc n) [] = ap suc (length-resized n [])
length-resized (suc n) (x ∷ xs) = ap suc (length-resized n xs)

take-resized : (n k : ℕ) (p : Bytes) → k ≤ length p → k ≤ n → take k (resized n p) ≡ take k p
take-resized n zero p h l = refl
take-resized zero (suc k) p h l = absurd (omega arith)
take-resized (suc n) (suc k) [] h l = absurd (omega arith)
take-resized (suc n) (suc k) (x ∷ xs) h l =
    ap (x ∷◌) (take-resized n k xs (omega arith) (omega arith))

abbrev pub allocator : Realloc
allocator p n = some (resized n p)

pub allocator-IsRealloc : IsRealloc allocator
allocator-IsRealloc = record {
  size =
      λ p n q h. let e : resized n p ≡ q = cc in subst (λ r. length r ≡ n) e (length-resized n p);
  kept = λ p n q k h l m.
      let e : resized n p ≡ q = cc in subst (λ r. take k r ≡ take k p) e (take-resized n k p l m);
}

allocator-gives : (p : Bytes) (n : ℕ) → allocator p n ≢ none
allocator-gives p n h = cc

abbrev buffer : StrBuf
buffer = record { data_block = codes "ab"; len = 2; cap = 2 }

buffer-IsBuffer : IsBuffer buffer
buffer-IsBuffer = record { sized = refl; fits = omega arith; small = omega arith }

strbuf_append_n-Ends_example :
    Ends
      (IsAppended buffer (take 3 (codes "xyz!")))
      (TooMuch allocator (2 + 3))
      (strbuf_append_n allocator buffer (codes "xyz!") 3)
strbuf_append_n-Ends_example =
    strbuf_append_n-Ends allocator allocator-IsRealloc buffer (codes "xyz!") 3 buffer-IsBuffer
      (omega arith) (omega arith)

strbuf_append_char-Ends_example :
    Ends
      (IsAppended buffer (b'c' ∷ []))
      (TooMuch allocator (2 + 1))
      (strbuf_append_char allocator buffer b'c')
strbuf_append_char-Ends_example =
    strbuf_append_char-Ends allocator allocator-IsRealloc buffer b'c' buffer-IsBuffer

strbuf_null_terminate-Ends_example :
    Ends (IsTerminated buffer) (TooMuch allocator (2 + 1)) (strbuf_null_terminate allocator buffer)
strbuf_null_terminate-Ends_example =
    strbuf_null_terminate-Ends allocator allocator-IsRealloc buffer buffer-IsBuffer

strbuf_append_n-succeeds_example :
    (r : StrBuf) × (strbuf_append_n allocator buffer (codes "xyz!") 3 ≡ ok r)
    × IsAppended buffer (take 3 (codes "xyz!")) r
strbuf_append_n-succeeds_example =
    strbuf_append_n-succeeds allocator allocator-IsRealloc allocator-gives buffer (codes "xyz!") 3
      buffer-IsBuffer (omega arith) (omega arith)
