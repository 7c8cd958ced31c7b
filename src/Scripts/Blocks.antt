-- ===== src/Scripts/Blocks.antt =====
-- The block of a source that has one (internal/pyscan/pyscan.go).
use particles.Base.{
  ℕ, suc, ◌+◌, ◌≡◌, refl, sym, ap, ◌∙◌, true, false, Option, none, some, List, [], ◌∷◌, ◌++◌,
  append_assoc, append-nil, length, All, arith,
}
use particles.Base.Bytes.{name_eq, has_prefix, trim_prefix, trimmed}
use particles.Dyld.Names.{ascii}
use particles.Scripts.{
  Line, trim_cr, ok, step, goes, opener, closer, add_block, extract, decoded, of_blocks, scan_bytes,
}

-- A line of the text as a comment
abbrev pub comment : Line → Line
comment [] = ascii "#"
comment (b ∷ s) = 35 ∷ (32 ∷ (b ∷ s))

abbrev pub comments : List Line → List Line
comments [] = []
comments (line ∷ text) = comment line ∷ comments text

-- The text, each line with its end
abbrev pub joined_lines : List Line → List ℕ
joined_lines [] = []
joined_lines (line ∷ text) = line ++ (10 ∷ joined_lines text)

-- A line that does not open a block
abbrev pub IsOther : Line → Type 0
IsOther line = name_eq (trim_cr line) opener ≡ false

-- A line of the text that does not end with "\r" and does not close the block
abbrev pub IsText : Line → Type 0
IsText line = (trim_cr line ≡ line) × (name_eq line (ascii "///") ≡ false)

other_lines :
    (before lines : List Line) (n : ℕ)
    → All IsOther before
    → extract true none n (before ++ lines) ≡ extract true none (n + length before) lines
unfolding extract step
other_lines [] lines n h = let e : n ≡ n + 0 = omega arith in ap (λ k. extract true none k lines) e
other_lines (line ∷ before) lines n (h, hs) =
    let next : (n + 1) + length before ≡ n + suc (length before) = omega arith in
    ground (arith, h, other_lines before lines (n + 1) hs, next)

trim_cr-comment : (line : Line) → trim_cr line ≡ line → trim_cr (comment line) ≡ comment line
unfolding trim_cr name_eq
trim_cr-comment [] h = refl
trim_cr-comment (b ∷ s) h = ground (arith, h)

text_step :
    (start n : ℕ) (body line : Line)
    → name_eq line (ascii "///") ≡ false
    → step (some (start, body)) n (comment line) ≡ goes (some (start, body ++ (line ++ (10 ∷ []))))
unfolding step name_eq has_prefix trimmed trim_prefix
text_step start n body [] h = refl
text_step start n body (b ∷ s) h = ground (arith, h)

comment_line :
    (start n : ℕ) (body line : Line) (lines : List Line)
    → IsText line
    → extract true (some (start, body)) n (comment line ∷ lines)
      ≡ extract true (some (start, body ++ (line ++ (10 ∷ [])))) (n + 1) lines
unfolding extract
comment_line start n body line lines (t, o) =
    ground (arith, trim_cr-comment line t, text_step start (n + 1) body line o)

text_lines :
    (start n : ℕ) (body : Line) (text after : List Line)
    → All IsText text
    → extract true (some (start, body)) n (comments text ++ (closer ∷ after))
      ≡ add_block
          (record { body = body ++ joined_lines text; start_line = start })
          (extract true none (n + length text + 1) after)
unfolding extract step
text_lines start n body [] after h =
    let next : n + 0 + 1 ≡ n + 1 = omega arith in
    ap (λ b. add_block (record { body = b; start_line = start }) (extract true none (n + 1) after))
      (sym (append-nil body))
    ∙ ap
        (λ k.
          add_block (record { body = body ++ []; start_line = start }) (extract true none k after))
        (sym next)
text_lines start n body (line ∷ text) after (h, hs) =
    let next : n + 1 + length text + 1 ≡ n + suc (length text) + 1 = omega arith in
    let bodies : (body ++ (line ++ (10 ∷ []))) ++ joined_lines text
        ≡ body ++ (line ++ (10 ∷ joined_lines text)) =
      simp append_assoc in
    comment_line start n body line (comments text ++ (closer ∷ after)) h
    ∙ (text_lines start (n + 1) (body ++ (line ++ (10 ∷ []))) text after hs
        ∙ (ap
              (λ b.
                add_block (record { body = b; start_line = start })
                  (extract true none (n + 1 + length text + 1) after))
              bodies
            ∙ ap
                (λ k.
                  add_block
                    (record { body = body ++ joined_lines (line ∷ text); start_line = start })
                    (extract true none k after))
                next))

opened_line :
    (n : ℕ) (lines : List Line)
    → extract true none n (opener ∷ lines) ≡ extract true (some (n + 1, [])) (n + 1) lines
unfolding extract step trim_cr name_eq
opened_line n lines = refl

others_only : (after : List Line) (n : ℕ) → All IsOther after → extract true none n after ≡ ok []
unfolding extract step
others_only [] n h = refl
others_only (line ∷ after) n (h, hs) = ground (arith, h, others_only after (n + 1) hs)

-- A source that can be read and in which a text stands once between an opener and a closer, each line
-- of it as a comment, and no other line opens a block: the text is decoded, whole and nothing else,
-- and where it is no TOML the error names the opener's line. No line of the text ends with "\r" or
-- would close the block.
pub scan_bytes-comments :
    (decode : List ℕ → Option (List Line × Line)) (before text after : List Line)
    → All IsOther before
    → All IsText text
    → All IsOther after
    → scan_bytes decode true (before ++ (opener ∷ (comments text ++ (closer ∷ after))))
      ≡ decoded (length before + 1) (decode (joined_lines text))
unfolding scan_bytes of_blocks add_block
scan_bytes-comments decode before text after h t k =
    let m = length before in
    let whole : extract true none 0 (before ++ (opener ∷ (comments text ++ (closer ∷ after))))
        ≡ ok (record { body = joined_lines text; start_line = m + 1 } ∷ []) =
      other_lines before (opener ∷ (comments text ++ (closer ∷ after))) 0 h
      ∙ (ap (λ j. extract true none j (opener ∷ (comments text ++ (closer ∷ after)))) (omega arith)
          ∙ (opened_line m (comments text ++ (closer ∷ after))
              ∙ (text_lines (m + 1) (m + 1) [] text after t
                  ∙ ap (add_block (record { body = joined_lines text; start_line = m + 1 }))
                      (others_only after _ k)))) in
    ap (of_blocks decode) whole
