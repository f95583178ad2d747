-- ===== src/Discovery/Pack/Signed.antt =====
-- pkg/proxy/discovery/pack.go: a pack that is accepted, and the line that holds its signature.
use mathlib.Core.List.{append_assoc, append-nil}
use forager.Prelude.{
  All-append, ◌+◌, ◌≡◌, ◌≢◌, refl, ◌∙◌, ap, sym, true, List, [], ◌∷◌, ◌++◌, arith, nat_eq,
}
use forager.Prelude.Bytes.{Bytes, join}
use forager.Prelude.Text.{split_lines, split_lines-append, trim_right, trim_right-append, Lacks}
use forager.Discovery.Pack.{
  carriage, newline, replace_crlf, replace_cr, is_signature_line, strip, is_trailing,
  split_signature_line,
}

replace_crlf_lacking : (s : Bytes) → Lacks carriage s → replace_crlf s ≡ s
unfolding replace_crlf
replace_crlf_lacking [] h = refl
replace_crlf_lacking (c ∷ []) h = refl
replace_crlf_lacking (c ∷ d ∷ s) h = ground (arith, replace_crlf_lacking (d ∷ s) h.1)

replace_cr_lacking : (s : Bytes) → Lacks carriage s → replace_cr s ≡ s
unfolding replace_cr
replace_cr_lacking [] h = refl
replace_cr_lacking (c ∷ s) h = ground (arith, replace_cr_lacking s h.1)

strip-append :
    (a b : List Bytes) → strip (a ++ b) ≡ ((strip a).0 ++ (strip b).0, (strip a).1 + (strip b).1)
unfolding strip
strip-append [] b = ground arith
strip-append (line ∷ a) b = ground (arith, strip-append a b)

join_behind :
    (w : Bytes) (ws : List Bytes)
    → join (newline ∷ []) ((w ∷ ws) ++ ([] ∷ [])) ≡ join (newline ∷ []) (w ∷ ws) ++ (newline ∷ [])
unfolding join
join_behind w [] = refl
join_behind w (v ∷ ws) = rw (join_behind v ws) (simp append_assoc)

-- An empty last line is a newline at the end, or nothing where it is the only line.
join-append :
    (lines : List Bytes)
    → trim_right is_trailing (join (newline ∷ []) (lines ++ ([] ∷ [])))
      ≡ trim_right is_trailing (join (newline ∷ []) lines)
unfolding join
join-append [] = refl
join-append (w ∷ ws) =
    rw (join_behind w ws)
      (trim_right-append is_trailing (join (newline ∷ []) (w ∷ ws)) newline refl)

strip_behind :
    (lines : List Bytes) (line : Bytes)
    → is_signature_line line ≡ true
    → strip ((lines ++ (line ∷ [])) ++ ([] ∷ []))
      ≡ ((strip lines).0 ++ ([] ∷ []), (strip lines).1 + 1)
unfolding strip is_signature_line
strip_behind lines line h =
    rw (strip-append (lines ++ (line ∷ [])) ([] ∷ []), strip-append lines (line ∷ []))
      (ground (arith, append-nil (strip lines).0))

-- A line behind a document, with the newline that ends it, is a line of its own.
lines_behind :
    (doc line : Bytes)
    → Lacks newline line
    → split_lines newline (doc ++ (newline ∷ (line ++ (newline ∷ []))))
      ≡ (split_lines newline doc ++ (line ∷ [])) ++ ([] ∷ [])
lines_behind doc line h =
    ap (split_lines newline) (sym (append_assoc doc (newline ∷ line) (newline ∷ [])))
    ∙ split_lines-append newline (doc ++ (newline ∷ line)) [] tt
    ∙ ap (λ ls. ls ++ ([] ∷ [])) (split_lines-append newline doc line h)

-- Appending a signature line to a document without carriage returns leaves the signed bytes as they
-- are, and is counted once.
split_signature_line-append :
    (doc line : Bytes)
    → is_signature_line line ≡ true
    → Lacks newline line
    → Lacks carriage doc
    → Lacks carriage line
    → split_signature_line (doc ++ (newline ∷ (line ++ (newline ∷ []))))
      ≡ ((split_signature_line doc).0, (split_signature_line doc).1 + 1)
unfolding split_signature_line
split_signature_line-append doc line is_line one h k =
    let text = doc ++ (newline ∷ (line ++ (newline ∷ []))) in
    let plain : Lacks carriage text =
      All-append (λ c. c ≢ carriage) doc (newline ∷ (line ++ (newline ∷ []))) h
        (omega arith, All-append (λ c. c ≢ carriage) line (newline ∷ []) k (omega arith, tt)) in
    rw
      (
        replace_crlf_lacking text plain,
        replace_cr_lacking text plain,
        lines_behind doc line one,
        strip_behind (split_lines newline doc) line is_line,
        replace_crlf_lacking doc h,
        replace_cr_lacking doc h,
        join-append (strip (split_lines newline doc)).0,
      )
      refl
