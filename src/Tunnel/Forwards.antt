-- ===== src/Tunnel/Forwards.antt =====
-- internal/tunnel/tunnel.go: `ForwardsFromPorts`, the forwards of a project.
use w17ctl.Base.{
  ℤ, pos, int_eq, int_eq_iff, Ordering, Bool, true, false, List, [], ◌∷◌, ◌≡◌, refl, sym, ap, ◌∙◌,
  subst, ◌≢◌, ◌⊎◌, inl, inr, if◌then◌else◌, arith, In,
}
use w17ctl.Base.Order.{IsOrder, int_compare-IsOrder}
use w17ctl.Base.Sort.{insert, sort, IsSorted, sort-IsSorted, sort-In, In-sort, In-insert}
use w17ctl.Tunnel.{
  Forward, put_forward, add_forward, same_port, add_ports, add_extra, by_port, forwards_from_ports,
}

-- No two forwards listen on one local port.
abbrev pub IsDistinct : List Forward → Type 0
IsDistinct [] = Unit
IsDistinct (f ∷ fs) = ((g : Forward) → In g fs → g.local_port ≢ f.local_port) × IsDistinct fs

-- A forward with the local port stands in the list.
abbrev pub HasLocal : ℤ → List Forward → Type 0
HasLocal p l = (f : Forward) × In f l × (f.local_port ≡ p)

In-put_forward :
    (f g : Forward) (l : List Forward)
    → In g (put_forward f l)
    → (g ≡ f) ⊎ (In g l × ((g.local_port ≡ f.local_port) → IsDistinct l → g ≡ f))
unfolding put_forward
In-put_forward f g [] (inl e) = inl e
In-put_forward f g [] (inr i) = absurd i
In-put_forward f g (h ∷ l) i =
    split (int_eq h.local_port f.local_port) refl i (In-put_forward f g l)
  where
    Goal : Type 0
    Goal = (g ≡ f) ⊎ (In g (h ∷ l) × ((g.local_port ≡ f.local_port) → IsDistinct (h ∷ l) → g ≡ f))

    split :
        (b : Bool)
        → int_eq h.local_port f.local_port ≡ b
        → In g (if b then f ∷ l else h ∷ put_forward f l)
        → (In g (put_forward f l)
            → (g ≡ f) ⊎ (In g l × ((g.local_port ≡ f.local_port) → IsDistinct l → g ≡ f)))
        → Goal
    split true e (inl q) later = inl q
    split true e (inr j) later =
        inr
          (inr j, λ r (n, m). absurd (n g j (r ∙ sym ((int_eq_iff h.local_port f.local_port).0 e))))
    split false e (inl q) later = inr (
      inl q,
      λ r m. absurd (ground (arith, int_eq_iff h.local_port f.local_port, ap Forward.local_port q)),
    )
    split false e (inr j) later = elim (later j) [
      | inl q ↦ inl q
      | inr (k, n) ↦ inr (inr k, λ r (x, m). n r m)
    ]

put_forward-In : (f : Forward) (l : List Forward) → In f (put_forward f l)
unfolding put_forward
put_forward-In f [] = inl refl
put_forward-In f (h ∷ l) = split (int_eq h.local_port f.local_port) (put_forward-In f l)
  where
    split : (b : Bool) → In f (put_forward f l) → In f (if b then f ∷ l else h ∷ put_forward f l)
    split true i = inl refl
    split false i = inr i

put_forward-HasLocal :
    (f : Forward) (l : List Forward) (p : ℤ) → HasLocal p l → HasLocal p (put_forward f l)
unfolding put_forward
put_forward-HasLocal f [] p (g, i, e) = absurd i
put_forward-HasLocal f (h ∷ l) p (g, i, e) =
    split (int_eq h.local_port f.local_port) refl i (λ j. put_forward-HasLocal f l p (g, j, e))
  where
    split :
        (b : Bool)
        → int_eq h.local_port f.local_port ≡ b
        → In g (h ∷ l)
        → (In g l → HasLocal p (put_forward f l))
        → HasLocal p (if b then f ∷ l else h ∷ put_forward f l)
    split true q (inl r) later = (
      f,
      inl refl,
      sym ((int_eq_iff h.local_port f.local_port).0 q) ∙ sym (ap Forward.local_port r) ∙ e,
    )
    split true q (inr j) later = (g, inr j, e)
    split false q (inl r) later = (h, inl refl, sym (ap Forward.local_port r) ∙ e)
    split false q (inr j) later = let (k, m, n) = later j in (k, inr m, n)

put_forward-IsDistinct :
    (f : Forward) (l : List Forward) → IsDistinct l → IsDistinct (put_forward f l)
unfolding put_forward
put_forward-IsDistinct f [] d = ((λ g i. absurd i), tt)
put_forward-IsDistinct f (h ∷ l) (n, d) =
    split (int_eq h.local_port f.local_port) refl (put_forward-IsDistinct f l d)
  where
    split :
        (b : Bool)
        → int_eq h.local_port f.local_port ≡ b
        → IsDistinct (put_forward f l)
        → IsDistinct (if b then f ∷ l else h ∷ put_forward f l)
    split true e m = ((λ g i q. n g i (q ∙ sym ((int_eq_iff h.local_port f.local_port).0 e))), d)
    split false e m = (
      (λ g i q. elim (In-put_forward f g l i) [
        | inl r ↦ ground (arith, int_eq_iff h.local_port f.local_port, ap Forward.local_port r)
        | inr (j, _) ↦ n g j q
      ]),
      m,
    )

-- A list of forwards to different local ports, each of them a real one and each forward as required.
abbrev IsGood : (Forward → Type 0) → List Forward → Type 0
IsGood P l = IsDistinct l × ((g : Forward) → In g l → (g.local_port ≢ pos 0) × P g)

module _ (P : Forward → Type 0) (f : Forward) (l : List Forward) where
  add_forward-IsGood :
      P f
      → IsGood P l
      → IsGood P (add_forward f l)
        × ((p : ℤ) → HasLocal p l → HasLocal p (add_forward f l))
        × (f.local_port ≢ pos 0 → HasLocal f.local_port (add_forward f l))
        × ((g : Forward) → In g (add_forward f l) → g.local_port ≡ f.local_port → g ≡ f)
  unfolding add_forward
  add_forward-IsGood pf (d, h) = split (int_eq f.local_port (pos 0)) refl
    where
      split :
          (b : Bool)
          → int_eq f.local_port (pos 0) ≡ b
          → IsGood P (if b then l else put_forward f l)
            × ((p : ℤ) → HasLocal p l → HasLocal p (if b then l else put_forward f l))
            × (f.local_port ≢ pos 0 → HasLocal f.local_port (if b then l else put_forward f l))
            × ((g : Forward)
                → In g (if b then l else put_forward f l)
                → g.local_port ≡ f.local_port
                → g ≡ f)
      split true e =
          let zero_port = (int_eq_iff f.local_port (pos 0)).0 e in
          (
            (d, h),
            (λ p i. i),
            (λ n. absurd (n zero_port)),
            λ g i q. absurd ((h g i).0 (q ∙ zero_port)),
          )
      split false e = (
        (
          put_forward-IsDistinct f l d,
          λ g i. elim (In-put_forward f g l i) [
            | inl q ↦ (
              (λ z.
                  ground
                    (arith, int_eq_iff f.local_port (pos 0), sym (ap Forward.local_port q) ∙ z)),
              subst P (sym q) pf,
            )
            | inr (j, _) ↦ h g j
          ],
        ),
        (λ p i. put_forward-HasLocal f l p i),
        (λ n. (f, put_forward-In f l, refl)),
        λ g i q. elim (In-put_forward f g l i) [ inl r ↦ r | inr (j, k) ↦ k q d ],
      )

In-add_forward : (f g : Forward) (l : List Forward) → In g (add_forward f l) → (g ≡ f) ⊎ In g l
unfolding add_forward
In-add_forward f g l i = split (int_eq f.local_port (pos 0)) i
  where
    split : (b : Bool) → In g (if b then l else put_forward f l) → (g ≡ f) ⊎ In g l
    split true j = inr j
    split false j = elim (In-put_forward f g l j) [ inl e ↦ inl e | inr (k, _) ↦ inr k ]

add_ports-IsGood :
    (P : Forward → Type 0) (ports : List ℤ) (l : List Forward)
    → ((p : ℤ) → In p ports → P (same_port p))
    → IsGood P l
    → IsGood P (add_ports ports l)
      × ((p : ℤ) → HasLocal p l → HasLocal p (add_ports ports l))
      × ((p : ℤ) → In p ports → p ≢ pos 0 → HasLocal p (add_ports ports l))
unfolding add_ports
add_ports-IsGood P [] l h g = (g, (λ p i. i), λ p i n. absurd i)
add_ports-IsGood P (q ∷ ports) l h g =
    let (good, keeps, new, _) = add_forward-IsGood P (same_port q) l (h q (inl refl)) g in
    let (good', keeps', news) =
      add_ports-IsGood P ports (add_forward (same_port q) l) (λ p i. h p (inr i)) good in
    (
      good',
      (λ p i. keeps' p (keeps p i)),
      λ p i n. elim i [
        | inl e ↦
            keeps' p
              (subst (λ z. HasLocal z (add_forward (same_port q) l)) (sym e) (new (λ z. n (e ∙ z))))
        | inr j ↦ news p j n
      ],
    )

-- An extra forward has the say over its local port.
abbrev IsDecided : List Forward → List Forward → Type 0
IsDecided extra l = (e g : Forward) → In e extra → In g l → g.local_port ≡ e.local_port → In g extra

add_extra-IsGood :
    (P : Forward → Type 0) (extra : List Forward) (l : List Forward)
    → ((e : Forward) → In e extra → P e)
    → IsGood P l
    → IsGood P (add_extra extra l)
      × ((p : ℤ) → HasLocal p l → HasLocal p (add_extra extra l))
      × ((e : Forward)
          → In e extra
          → e.local_port ≢ pos 0
          → HasLocal e.local_port (add_extra extra l))
      × ((g : Forward) → In g (add_extra extra l) → In g extra ⊎ In g l)
      × IsDecided extra (add_extra extra l)
unfolding add_extra
add_extra-IsGood P [] l h g =
    (g, (λ p i. i), (λ e i n. absurd i), (λ x i. inr i), λ e x i. absurd i)
add_extra-IsGood P (f ∷ extra) l h g =
    let (good, keeps, new, only) = add_forward-IsGood P f l (h f (inl refl)) g in
    let (good', keeps', news, from, says) =
      add_extra-IsGood P extra (add_forward f l) (λ e i. h e (inr i)) good in
    (
      good',
      (λ p i. keeps' p (keeps p i)),
      (λ e i n. elim i [
        | inl q ↦ keeps' e.local_port (
            subst (λ z. HasLocal z (add_forward f l)) (sym (ap Forward.local_port q))
              (new (λ z. n (ap Forward.local_port q ∙ z))))
        | inr j ↦ news e j n
      ]),
      (λ x i. elim (from x i) [ inl j ↦ inl (inr j) | inr j ↦ added x j ]),
      λ e x i j q. elim i [
        | inr k ↦ inr (says e x k j q)
        | inl r ↦ elim (from x j) [
          | inl k ↦ inr k
          | inr k ↦ inl (only x k (q ∙ ap Forward.local_port r))
        ]
      ],
    )
  where
    added : (x : Forward) → In x (add_forward f l) → In x (f ∷ extra) ⊎ In x l
    added x j = elim (In-add_forward f x l j) [ inl e ↦ inl (inl e) | inr k ↦ inr k ]

insert-IsDistinct :
    (f : Forward) (l : List Forward)
    → ((g : Forward) → In g l → g.local_port ≢ f.local_port)
    → IsDistinct l
    → IsDistinct (insert by_port f l)
unfolding insert
insert-IsDistinct f [] n d = (n, d)
insert-IsDistinct f (h ∷ l) n (m, d) =
    split (by_port f h) (insert-IsDistinct f l (λ g i. n g (inr i)) d)
  where
    behind : (g : Forward) → In g (insert by_port f l) → g.local_port ≢ h.local_port
    behind g i q = elim (In-insert by_port g f l i) [
      | inl e ↦ n h (inl refl) (sym q ∙ ap Forward.local_port e)
      | inr j ↦ m g j q
    ]

    split :
        (o : Ordering)
        → IsDistinct (insert by_port f l)
        → IsDistinct (elim o [ Ordering.gt ↦ h ∷ insert by_port f l | _ ↦ f ∷ h ∷ l ])
    split Ordering.gt r = (behind, r)
    split Ordering.lt r = (n, (m, d))
    split Ordering.eq r = (n, (m, d))

sort-IsDistinct : (l : List Forward) → IsDistinct l → IsDistinct (sort by_port l)
unfolding sort
sort-IsDistinct [] d = d
sort-IsDistinct (f ∷ l) (n, d) =
    insert-IsDistinct f (sort by_port l) (λ g i. n g (In-sort by_port g l i)) (sort-IsDistinct l d)

by_port-IsOrder : IsOrder by_port
by_port-IsOrder = record {
  same = λ a. int_compare-IsOrder.same a.local_port;
  flipped = λ a b. int_compare-IsOrder.flipped a.local_port b.local_port;
  chain = λ a b c. int_compare-IsOrder.chain a.local_port b.local_port c.local_port;
}

-- A forward of a project: a port of its own, to the same port, or one of the extra forwards.
abbrev pub IsAsked : List ℤ → List Forward → Forward → Type 0
IsAsked ports extra f = In f extra ⊎ ((p : ℤ) × In p ports × (f ≡ same_port p))

-- The forwards are in the order of their local ports, no two on one of them and none on port zero. Each
-- is a port's own or an extra one; every port and every extra forward but the zero ones has its local
-- port served; and where an extra forward names a local port, an extra forward serves it.
pub forwards_from_ports_lem :
    (ports : List ℤ) (extra : List Forward)
    → let out = forwards_from_ports ports extra in
      IsSorted by_port out
      × IsDistinct out
      × ((f : Forward) → In f out → (f.local_port ≢ pos 0) × IsAsked ports extra f)
      × ((p : ℤ) → In p ports → p ≢ pos 0 → HasLocal p out)
      × ((e : Forward) → In e extra → e.local_port ≢ pos 0 → HasLocal e.local_port out)
      × ((e f : Forward) → In e extra → In f out → f.local_port ≡ e.local_port → In f extra)
unfolding forwards_from_ports
forwards_from_ports_lem ports extra =
    let (start, _, served) =
      add_ports-IsGood (IsAsked ports extra) ports [] (λ p i. inr (p, i, refl))
        (tt, λ g i. absurd i) in
    let ((d, h), keeps, own, _, says) =
      add_extra-IsGood (IsAsked ports extra) extra (add_ports ports []) (λ e i. inl i) start in
    let l = add_extra extra (add_ports ports []) in
    (
      sort-IsSorted by_port by_port-IsOrder l,
      sort-IsDistinct l d,
      (λ f i. h f (In-sort by_port f l i)),
      (λ p i n. sorted p (keeps p (served p i n))),
      (λ e i n. sorted e.local_port (own e i n)),
      λ e f i j q. says e f i (In-sort by_port f l j) q,
    )
  where
    sorted :
        (p : ℤ)
        → HasLocal p (add_extra extra (add_ports ports []))
        → HasLocal p (sort by_port (add_extra extra (add_ports ports [])))
    sorted p (f, i, e) = (f, sort-In by_port f (add_extra extra (add_ports ports [])) i, e)
