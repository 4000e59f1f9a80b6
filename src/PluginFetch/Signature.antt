-- ===== src/PluginFetch/Signature.antt =====
-- internal/pluginfetch/pluginfetch.go: `signatureFromTagMessage`, the signature block in the message of
-- a release tag.
use w17ctl.Base.{
  ℕ, zero, suc, ◌+◌, ◌-◌, Str, codes, str_eq, join, split, trim_space, length, Option, none, some,
  List, [], ◌∷◌, ◌++◌, ◌≡◌, refl, sym, subst, Bool, true, false, ◌↔◌, str_eq_iff, ap, ◌∙◌,
  if◌then◌else◌, arith, All, ◌==◌, ◌&&◌, ◌≢◌,
}

-- `strings.ReplaceAll(msg, "\r\n", "\n")`
unfoldable pub to_lf : Str → Str
to_lf [] = []
to_lf (c ∷ []) = c ∷ []
to_lf (c ∷ d ∷ s) = let rest = to_lf (d ∷ s) in if c == 13 && d == 10 then rest else c ∷ rest

pub data LineKind : Type 0 where
  opening closing plain : LineKind

abbrev pub tag_signature_begin : Str
tag_signature_begin = codes "-----BEGIN W17 PLUGIN SIGNATURE-----"

abbrev pub tag_signature_end : Str
tag_signature_end = codes "-----END W17 PLUGIN SIGNATURE-----"

unfoldable pub kind_of : Str → LineKind
kind_of line =
    let t = trim_space line in
    if str_eq t tag_signature_begin
    then opening
    else if str_eq t tag_signature_end
    then closing
    else plain

-- `begin` and `end`, or a block that is opened twice
pub data Marks : Type 0 where
  twice : Marks
  marks : Option ℕ → Option ℕ → Marks

abbrev pub opened_at : ℕ → Option ℕ → Option ℕ → Marks
opened_at i none e = marks (some i) e
opened_at i (some b) e = twice

abbrev pub closed_at : ℕ → Option ℕ → Option ℕ → Marks
closed_at i none e = marks none e
closed_at i (some b) none = marks (some b) (some i)
closed_at i (some b) (some e) = marks (some b) (some e)

-- one line of the loop
abbrev pub mark : LineKind → ℕ → Marks → Marks
mark k i twice = twice
mark opening i (marks b e) = opened_at i b e
mark closing i (marks b e) = closed_at i b e
mark plain i (marks b e) = marks b e

unfoldable pub scan_lines : List Str → ℕ → Marks → Marks
unfolding kind_of
scan_lines [] i m = m
scan_lines (line ∷ lines) i m = scan_lines lines (suc i) (mark (kind_of line) i m)

abbrev pub after : ℕ → List Str → List Str
after zero l = l
after (suc n) [] = []
after (suc n) (x ∷ l) = after n l

abbrev pub first : ℕ → List Str → List Str
first zero l = []
first (suc n) [] = []
first (suc n) (x ∷ l) = x ∷ first n l

pub data Signed : Type 0 where
  unsigned : Signed
  signature : Str → Signed
  opened_twice : Signed
  never_closed : Signed
  empty_block : Signed

unfoldable pub block_text : List Str → Signed
block_text body =
    let text = join body (codes "\n") in
    if str_eq (trim_space text) [] then empty_block else signature (text ++ codes "\n")

abbrev pub in_lines : List Str → Marks → Signed
in_lines lines twice = opened_twice
in_lines lines (marks none e) = unsigned
in_lines lines (marks (some b) none) = never_closed
in_lines lines (marks (some b) (some e)) = block_text (first (e - (b + 1)) (after (b + 1) lines))

-- what the function makes of the lines of a message
unfoldable pub signature_in : List Str → Signed
unfolding scan_lines block_text
signature_in lines = in_lines lines (scan_lines lines 0 (marks none none))

-- `signatureFromTagMessage(tag, msg)`
unfoldable pub signature_from_tag_message : Str → Signed
unfolding signature_in to_lf
signature_from_tag_message msg = signature_in (split (to_lf msg) 10)

scan-before :
    (pre rest : List Str) (i : ℕ)
    → All (λ l. kind_of l ≢ opening) pre
    → scan_lines (pre ++ rest) i (marks none none)
      ≡ scan_lines rest (i + length pre) (marks none none)
unfolding scan_lines
scan-before [] rest i h = ap (λ n. scan_lines rest n (marks none none)) (ground arith)
scan-before (l ∷ pre) rest i (n, h) =
    ap (scan_lines (pre ++ rest) (suc i)) (unmoved (kind_of l) n)
    ∙ scan-before pre rest (suc i) h
    ∙ ap (λ k. scan_lines rest k (marks none none)) (ground arith)
  where
    unmoved : (k : LineKind) → k ≢ opening → mark k i (marks none none) ≡ marks none none
    unmoved opening m = absurd (m refl)
    unmoved closing m = refl
    unmoved plain m = refl

scan-block :
    (body rest : List Str) (i b : ℕ)
    → All (λ l. kind_of l ≡ plain) body
    → scan_lines (body ++ rest) i (marks (some b) none)
      ≡ scan_lines rest (i + length body) (marks (some b) none)
unfolding scan_lines
scan-block [] rest i b h = ap (λ n. scan_lines rest n (marks (some b) none)) (ground arith)
scan-block (l ∷ body) rest i b (e, h) =
    ap (λ k. scan_lines (body ++ rest) (suc i) (mark k i (marks (some b) none))) e
    ∙ scan-block body rest (suc i) b h
    ∙ ap (λ k. scan_lines rest k (marks (some b) none)) (ground arith)

scan-behind :
    (post : List Str) (i b e : ℕ)
    → All (λ l. kind_of l ≢ opening) post
    → scan_lines post i (marks (some b) (some e)) ≡ marks (some b) (some e)
unfolding scan_lines
scan-behind [] i b e h = refl
scan-behind (l ∷ post) i b e (n, h) =
    ap (scan_lines post (suc i)) (unmoved (kind_of l) n) ∙ scan-behind post (suc i) b e h
  where
    unmoved :
        (k : LineKind) → k ≢ opening → mark k i (marks (some b) (some e)) ≡ marks (some b) (some e)
    unmoved opening m = absurd (m refl)
    unmoved closing m = refl
    unmoved plain m = refl

after-append : (pre t : List Str) (x : Str) → after (suc (length pre)) (pre ++ x ∷ t) ≡ t
after-append [] t x = refl
after-append (y ∷ pre) t x = after-append pre t x

first-append : (s t : List Str) → first (length s) (s ++ t) ≡ s
first-append [] t = refl
first-append (x ∷ s) t = ap (λ z. x ∷ z) (first-append s t)

-- What a block of lines gives.
abbrev pub IsBlock : List Str → Signed → Type 0
IsBlock body r =
    (trim_space (join body (codes "\n")) ≡ [] → r ≡ empty_block)
    × (trim_space (join body (codes "\n")) ≢ []
        → r ≡ signature (join body (codes "\n") ++ codes "\n"))

block_text-IsBlock : (body : List Str) → IsBlock body (block_text body)
unfolding block_text
block_text-IsBlock body =
    split (str_eq (trim_space (join body (codes "\n"))) [])
      (str_eq_iff (trim_space (join body (codes "\n"))) [])
  where
    split :
        (b : Bool)
        → ((b ≡ true) ↔ (trim_space (join body (codes "\n")) ≡ []))
        → IsBlock body (if b then empty_block else signature (join body (codes "\n") ++ codes "\n"))
    split true e = (λ h. refl, λ n. absurd (n (e.0 refl)))
    split false e = (λ h. absurd (ground (arith, e)), λ n. refl)

-- In lines with one opening marker, the block up to the next closing marker is found, whatever else stands
-- before it (closing markers too) and behind it: a blank block is refused as empty, and any other gives
-- the signature of its lines, each with its line end.
pub signature_in_lem :
    (pre body post : List Str) (opener closer : Str)
    → All (λ l. kind_of l ≢ opening) pre
    → kind_of opener ≡ opening
    → All (λ l. kind_of l ≡ plain) body
    → kind_of closer ≡ closing
    → All (λ l. kind_of l ≢ opening) post
    → IsBlock body (signature_in (pre ++ opener ∷ (body ++ closer ∷ post)))
unfolding signature_in scan_lines
signature_in_lem pre body post opener closer hp ho hb hc hq =
    subst (IsBlock body) (sym given) (block_text-IsBlock body)
  where
    lines : List Str
    lines = pre ++ opener ∷ (body ++ closer ∷ post)

    n : ℕ
    n = length pre

    refl_suc : (j : ℕ) → j + 1 ≡ suc j
    refl_suc j = ground arith

    block_length : (j k : ℕ) → suc j + k - (j + 1) ≡ k
    block_length j k = ground arith

    from_opener :
        (k : LineKind)
        → k ≡ opening
        → scan_lines (body ++ closer ∷ post) (suc n) (mark k n (marks none none))
          ≡ marks (some n) (some (suc n + length body))
    from_opener k e =
        ap (λ j. scan_lines (body ++ closer ∷ post) (suc n) (mark j n (marks none none))) e
        ∙ scan-block body (closer ∷ post) (suc n) n hb
        ∙ ap
            (λ j.
              scan_lines post (suc (suc n + length body))
                (mark j (suc n + length body) (marks (some n) none)))
            hc
        ∙ scan-behind post (suc (suc n + length body)) n (suc n + length body) hq

    found : scan_lines lines 0 (marks none none) ≡ marks (some n) (some (suc n + length body))
    found =
        scan-before pre (opener ∷ (body ++ closer ∷ post)) 0 hp
        ∙ ap (λ j. scan_lines (opener ∷ (body ++ closer ∷ post)) j (marks none none)) zero_first
        ∙ from_opener (kind_of opener) ho
      where
        zero_first : 0 + length pre ≡ length pre
        zero_first = ground arith

    given : in_lines lines (scan_lines lines 0 (marks none none)) ≡ block_text body
    given =
        ap (in_lines lines) found
        ∙ ap block_text (
            ap (λ j. first j (after (n + 1) lines)) (block_length n (length body))
            ∙ ap (λ j. first (length body) (after j lines)) (refl_suc n)
            ∙ ap (first (length body)) (after-append pre (body ++ closer ∷ post) opener)
            ∙ first-append body (closer ∷ post))
