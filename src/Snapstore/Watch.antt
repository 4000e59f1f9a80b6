-- ===== src/Snapstore/Watch.antt =====
-- internal/snapstore/dumpcheck.go: the scan of a dump that arrives in pieces, against a search of the
-- whole dump.
use w17ctl.Base.{
  contains, ℕ, zero, suc, ◌+◌, ◌-◌, ◌≤◌, Str, has_prefix, drop, length, Bool, true, false, ◌||◌,
  List, [], ◌∷◌, ◌++◌, append_assoc, append-nil, ◌≡◌, refl, sym, ap, ◌∙◌, subst, ◌⊎◌, ◌↔◌, inl, inr,
  if◌then◌else◌, arith, All, In,
}
use w17ctl.Base.Cutting.{length-append}
use w17ctl.Snapstore.{
  object_markers, longest, any_marker, ObjectWatch, keep_tail, scan, write, write_all, saw_object,
  concat,
}

has_prefix-append : (h p m : Str) → length m ≤ length h → has_prefix (h ++ p) m ≡ has_prefix h m
unfolding has_prefix
has_prefix-append h p [] l = ground arith
has_prefix-append [] p (d ∷ m) l = absurd (ground arith)
has_prefix-append (c ∷ h) p (d ∷ m) l = ground (arith, has_prefix-append h p m)

has_prefix_grows : (h p m : Str) → has_prefix h m ≡ true → has_prefix (h ++ p) m ≡ true
unfolding has_prefix
has_prefix_grows h p [] l = ground arith
has_prefix_grows [] p (d ∷ m) l = absurd (ground arith)
has_prefix_grows (c ∷ h) p (d ∷ m) l = ground (arith, has_prefix_grows h p m)

contains_grows : (h p m : Str) → contains h m ≡ true → contains (h ++ p) m ≡ true
unfolding contains has_prefix
contains_grows [] p [] e = start p
  where
    start : (q : Str) → contains q [] ≡ true
    start [] = refl
    start (c ∷ q) = refl
contains_grows [] p (d ∷ m) e = absurd (ground arith)
contains_grows (c ∷ h) p m e = ground (arith, has_prefix_grows (c ∷ h) p m, contains_grows h p m)

-- A text that is not in the history is in the history and a new piece exactly where it is in the tail
-- of the history and the piece, when the tail is at most one byte shorter than the text.
contains_tail :
    (front tail p m : Str)
    → length m ≤ suc (length tail)
    → contains (front ++ tail) m ≡ false
    → contains ((front ++ tail) ++ p) m ≡ contains (tail ++ p) m
unfolding contains
contains_tail [] tail p m l e = refl
contains_tail (c ∷ front) tail p m l e =
    let s = front ++ tail in
    ground (arith, has_prefix-append (c ∷ s) p m, contains_tail front tail p m l, length_tail front)
  where
    length_tail : (f : Str) → length tail ≤ length (f ++ tail)
    length_tail [] = ground arith
    length_tail (d ∷ f) = ground (arith, length_tail f)

any_marker_grows :
    (h p : Str) (ms : List Str) → any_marker h ms ≡ true → any_marker (h ++ p) ms ≡ true
unfolding any_marker
any_marker_grows h p [] e = e
any_marker_grows h p (m ∷ ms) e = ground (arith, contains_grows h p m, any_marker_grows h p ms)

-- What a scan keeps of a history: all of it, or at least as many of its last bytes as given.
abbrev IsTail : ℕ → Str → Str → Type 0
IsTail k h t = (front : Str) × (h ≡ front ++ t) × ((front ≡ []) ⊎ (k ≤ length t))

module _ (k : ℕ) where
  any_marker_tail :
      (front tail p : Str) (ms : List Str)
      → (front ≡ []) ⊎ (k ≤ length tail)
      → All (λ m. length m ≤ suc k) ms
      → any_marker (front ++ tail) ms ≡ false
      → any_marker ((front ++ tail) ++ p) ms ≡ any_marker (tail ++ p) ms
  unfolding any_marker
  any_marker_tail front tail p ms (inl e) a n = ap (λ f. any_marker ((f ++ tail) ++ p) ms) e
  any_marker_tail front tail p [] (inr l) a n = refl
  any_marker_tail front tail p (m ∷ ms) (inr l) (b, bs) n =
      ground (arith, contains_tail front tail p m, any_marker_tail front tail p ms (inr l) bs)

-- Dropping splits a text.
drop_splits :
    (n : ℕ) (s : Str)
    → n ≤ length s
    → (front : Str) × (s ≡ front ++ drop n s) × (length (drop n s) + n ≡ length s)
unfolding drop
drop_splits zero s l = ([], refl, ground arith)
drop_splits (suc n) [] l = absurd (ground arith)
drop_splits (suc n) (c ∷ s) l =
    let (front, e, g) = drop_splits n s (ground arith) in
    (c ∷ front, ap (λ r. c ∷ r) e, ground arith)

keep_last : (k : ℕ) (s : Str) → IsTail k s (drop (length s - k) s)
unfolding drop
keep_last k s = elim (order (length s)) [
  | inl l ↦ ([], ap (λ n. drop n s) (gone (length s) l), inl refl)
  | inr l ↦
      let (front, e, g) = drop_splits (length s - k) s (omega arith) in
      (front, e, inr (ground arith))
]
  where
    order : (n : ℕ) → (n ≤ k) ⊎ (k ≤ n)
    order n = ground arith

    gone : (n : ℕ) → n ≤ k → 0 ≡ n - k
    gone n l = omega arith

-- Every marker is at most one byte longer than the tail that is kept.
abbrev kept : ℕ
kept = longest object_markers - 1

markers_fit : All (λ m. length m ≤ suc kept) object_markers
unfolding longest
markers_fit = ground arith

-- A watch that has seen the pieces of a history, and has seen an object exactly where one is in it.
abbrev IsWatching : Str → ObjectWatch → Type 0
IsWatching h o = (o.seen ≡ any_marker h object_markers) × (o.seen ≡ false → IsTail kept h o.tail)

-- The tail of a piece behind a tail is a tail of the history and the piece.
IsTail-append : (k : ℕ) (h t p r : Str) → IsTail k h t → IsTail k (t ++ p) r → IsTail k (h ++ p) r
IsTail-append k h t p r (f, e, b) (g, e', b') = (
  f ++ g,
  ap (λ x. x ++ p) e ∙ append_assoc f t p ∙ ap (λ x. f ++ x) e' ∙ sym (append_assoc f g r),
  sizes b b',
)
  where
    far : g ≡ [] → k ≤ length t → k ≤ length r
    far q l = ground (arith, length-append t p, ap length e' ∙ ap (λ x. length (x ++ r)) q)

    sizes : (f ≡ []) ⊎ (k ≤ length t) → (g ≡ []) ⊎ (k ≤ length r) → (f ++ g ≡ []) ⊎ (k ≤ length r)
    sizes x (inr l) = inr l
    sizes (inl x) (inl y) = inl (ap (λ z. z ++ g) x ∙ y)
    sizes (inr l) (inl y) = inr (far y l)

scan-IsWatching :
    (h p t : Str)
    → IsTail kept h t
    → any_marker h object_markers ≡ false
    → IsWatching (h ++ p) (scan (t ++ p))
unfolding scan keep_tail
scan-IsWatching h p t i n =
    split (any_marker (t ++ p) object_markers) (sym (same i))
      (IsTail-append kept h t p (keep_tail (t ++ p)) i (keep_last kept (t ++ p)))
  where
    same : IsTail kept h t → any_marker (h ++ p) object_markers ≡ any_marker (t ++ p) object_markers
    same (front, e, b) =
        ap (λ x. any_marker (x ++ p) object_markers) e
        ∙ any_marker_tail kept front t p object_markers b markers_fit
            (ap (λ x. any_marker x object_markers) (sym e) ∙ n)

    split :
        (b : Bool)
        → b ≡ any_marker (h ++ p) object_markers
        → IsTail kept (h ++ p) (keep_tail (t ++ p))
        → IsWatching (h ++ p) (
            if b
            then record { tail = []; seen = true }
            else record { tail = keep_tail (t ++ p); seen = false })
    split true e j = (e, λ f. absurd (ground arith))
    split false e j = (e, λ f. j)

write-IsWatching : (h p : Str) (o : ObjectWatch) → IsWatching h o → IsWatching (h ++ p) (write o p)
unfolding write
write-IsWatching h p o (e, t) = split (o.seen) refl
  where
    split : (b : Bool) → o.seen ≡ b → IsWatching (h ++ p) (if b then o else scan (o.tail ++ p))
    split true q =
        (q ∙ sym (any_marker_grows h p object_markers (sym e ∙ q)), λ f. absurd (ground arith))
    split false q = scan-IsWatching h p o.tail (t q) (sym e ∙ q)

write_all-IsWatching :
    (h : Str) (ps : List Str) (o : ObjectWatch)
    → IsWatching h o
    → IsWatching (h ++ concat ps) (write_all o ps)
unfolding write_all concat
write_all-IsWatching h [] o w = subst (λ x. IsWatching x o) (sym (append-nil h)) w
write_all-IsWatching h (p ∷ ps) o w =
    subst (λ x. IsWatching x (write_all (write o p) ps)) (append_assoc h p (concat ps))
      (write_all-IsWatching (h ++ p) ps (write o p) (write-IsWatching h p o w))

none_in : false ≡ any_marker [] object_markers
unfolding any_marker contains has_prefix
none_in = refl

-- A text stands in another one.
abbrev pub Occurs : Str → Str → Type 0
Occurs m s = (a : Str) × (b : Str) × (s ≡ a ++ m ++ b)

has_prefix-splits : (s m : Str) → has_prefix s m ≡ true → (b : Str) × (s ≡ m ++ b)
unfolding has_prefix
has_prefix-splits s [] e = (s, refl)
has_prefix-splits [] (d ∷ m) e = absurd (ground arith)
has_prefix-splits (c ∷ s) (d ∷ m) e =
    let (b, q) = has_prefix-splits s m (ground arith) in (b, ground arith)

has_prefix_self : (m b : Str) → has_prefix (m ++ b) m ≡ true
unfolding has_prefix
has_prefix_self [] [] = refl
has_prefix_self [] (c ∷ b) = refl
has_prefix_self (d ∷ m) b = ground (arith, has_prefix_self m b)

contains-Occurs : (s m : Str) → contains s m ≡ true → Occurs m s
unfolding contains
contains-Occurs [] m e = let (b, q) = has_prefix-splits [] m e in ([], b, q)
contains-Occurs (c ∷ s) m e = split (has_prefix (c ∷ s) m) refl e (contains-Occurs s m)
  where
    split :
        (x : Bool)
        → has_prefix (c ∷ s) m ≡ x
        → (x || contains s m) ≡ true
        → (contains s m ≡ true → Occurs m s)
        → Occurs m (c ∷ s)
    split true q t later = let (b, r) = has_prefix-splits (c ∷ s) m q in ([], b, r)
    split false q t later = let (a, b, r) = later t in (c ∷ a, b, ap (λ z. c ∷ z) r)

Occurs-contains : (a m b : Str) → contains (a ++ m ++ b) m ≡ true
unfolding contains
Occurs-contains [] m b = here (m ++ b) (has_prefix_self m b)
  where
    here : (s : Str) → has_prefix s m ≡ true → contains s m ≡ true
    here [] h = h
    here (c ∷ s) h = ground arith
Occurs-contains (c ∷ a) m b = ground (arith, Occurs-contains a m b)

any_marker-Occurs :
    (s : Str) (ms : List Str) → any_marker s ms ≡ true → (m : Str) × In m ms × Occurs m s
unfolding any_marker
any_marker-Occurs s [] e = absurd (ground arith)
any_marker-Occurs s (m ∷ ms) e = split (contains s m) refl e (any_marker-Occurs s ms)
  where
    split :
        (x : Bool)
        → contains s m ≡ x
        → (x || any_marker s ms) ≡ true
        → (any_marker s ms ≡ true → (n : Str) × In n ms × Occurs n s)
        → (n : Str) × In n (m ∷ ms) × Occurs n s
    split true q t later = (m, inl refl, contains-Occurs s m q)
    split false q t later = let (n, i, o) = later t in (n, inr i, o)

Occurs-any_marker : (s m : Str) (ms : List Str) → In m ms → Occurs m s → any_marker s ms ≡ true
unfolding any_marker
Occurs-any_marker s m [] i o = absurd i
Occurs-any_marker s m (n ∷ ms) (inl q) (a, b, e) =
    ground (arith, ap (λ z. contains z m) e, Occurs-contains a m b, ap (contains s) q)
Occurs-any_marker s m (n ∷ ms) (inr t) o = ground (arith, Occurs-any_marker s m ms t o)

pieces : (chunks : List Str) → saw_object chunks ≡ any_marker (concat chunks) object_markers
unfolding saw_object
pieces chunks = (write_all-IsWatching [] chunks (record { tail = []; seen = false }) nothing_yet).0
  where
    nothing_yet : IsWatching [] (record { tail = []; seen = false })
    nothing_yet = (none_in, λ f. ([], refl, inl refl))

-- However the pipe cuts a dump into pieces, the scan sees an object exactly where the whole dump has
-- one of the markers somewhere in it: one that stands across two pieces, or across many, is seen too.
pub saw_object_iff :
    (chunks : List Str)
    → (saw_object chunks ≡ true) ↔ ((m : Str) × In m object_markers × Occurs m (concat chunks))
saw_object_iff chunks = (
  λ h. any_marker-Occurs (concat chunks) object_markers (sym (pieces chunks) ∙ h),
  λ (m, i, o). pieces chunks ∙ Occurs-any_marker (concat chunks) m object_markers i o,
)
