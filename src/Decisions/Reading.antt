-- ===== src/Decisions/Reading.antt =====
-- internal/migdecisions/decisions.go: `readOne`, what a file that can be applied holds.
use w17ctl.Base.{
  Str, str_eq, str_eq_iff, trim_space, Bool, true, false, List, [], ◌∷◌, ◌≡◌, refl, sym, ◌∙◌, ◌≢◌,
  ◌⊎◌, inl, inr, if◌then◌else◌, arith,
}
use w17ctl.Decisions.{
  File, Node, OnDisk, usable, option_of, read_choice, demand_id, read_parsed, read_one, read_rest,
  asked_again, started, failed, blank, no_finding, no_base, not_yaml,
}

abbrev pub IsComplete : File → Type 0
IsComplete f = (f.key ≢ []) × (f.base ≢ []) × (f.id ≢ []) × (f.choice ≢ []) × (f.unbound ≡ false)

read_choice-choice :
    (f : File) (ns : List Node) → usable (read_choice f ns) ≡ true → (read_choice f ns).choice ≢ []
unfolding read_choice
read_choice-choice f [] h = absurd (ground arith)
read_choice-choice f (n ∷ []) h = λ e. ground (arith, str_eq_iff (option_of n).0 [])
read_choice-choice f (n ∷ m ∷ ns) h = absurd (ground arith)

-- What choosing leaves as it was.
read_choice_keeps :
    (f : File) (ns : List Node)
    → ((read_choice f ns).key ≡ f.key)
      × ((read_choice f ns).base ≡ f.base)
      × ((read_choice f ns).unbound ≡ f.unbound)
unfolding read_choice
read_choice_keeps f [] = (refl, refl, refl)
read_choice_keeps f (n ∷ []) = (refl, refl, refl)
read_choice_keeps f (n ∷ m ∷ ns) = (refl, refl, refl)

demand_id-IsComplete :
    (f : File)
    → (usable f ≡ true → f.choice ≢ [])
    → f.key ≢ []
    → f.base ≢ []
    → f.unbound ≡ false
    → usable (demand_id f) ≡ true
    → IsComplete (demand_id f)
unfolding demand_id
demand_id-IsComplete f c k b u h = split (str_eq f.id []) refl h
  where
    split :
        (t : Bool)
        → str_eq f.id [] ≡ t
        → usable (if t then asked_again f else f) ≡ true
        → IsComplete (if t then asked_again f else f)
    split true e g = absurd (ground arith)
    split false e g = (k, b, (λ q. ground (arith, str_eq_iff f.id [])), c g, u)

read_rest-IsComplete :
    (f : File) (d : OnDisk)
    → f.key ≢ []
    → f.base ≢ []
    → f.unbound ≡ false
    → usable (read_rest f d) ≡ true
    → IsComplete (read_rest f d)
unfolding read_rest
read_rest-IsComplete f d k b u h =
    let g = record f {
      id = trim_space d.id;
      change = trim_space d.change;
      table = trim_space d.table;
    } in
    let (qk, qb, qu) = read_choice_keeps g d.choose in
    demand_id-IsComplete (read_choice g d.choose) (read_choice-choice g d.choose)
      (λ e. k (sym qk ∙ e)) (λ e. b (sym qb ∙ e)) (qu ∙ u) h

read_parsed-IsComplete :
    (p : Str) (d : OnDisk) → usable (read_parsed p d) ≡ true → IsComplete (read_parsed p d)
unfolding read_parsed
read_parsed-IsComplete p d h =
    split (str_eq (trim_space d.finding) []) (str_eq (trim_space d.base) []) refl refl h
  where
    split :
        (a b : Bool)
        → str_eq (trim_space d.finding) [] ≡ a
        → str_eq (trim_space d.base) [] ≡ b
        → usable (
            if a
            then failed (started p d) no_finding
            else if b
            then failed (started p d) no_base
            else read_rest (started p d) d)
          ≡ true
        → IsComplete (
            if a
            then failed (started p d) no_finding
            else if b
            then failed (started p d) no_base
            else read_rest (started p d) d)
    split true b e g k = absurd (ground arith)
    split false true e g k = absurd (ground arith)
    split false false e g k =
        read_rest-IsComplete (started p d) d
          (λ q. ground (arith, str_eq_iff (trim_space d.finding) []))
          (λ q. ground (arith, str_eq_iff (trim_space d.base) [])) refl k

-- Whatever a decision file holds and whatever the parser makes of it: a file that is read without a
-- problem names its finding, its base, its change and a choice, and is not marked as unbound.
pub read_one-IsComplete :
    (unmarshal : Str → Str ⊎ OnDisk) (p : Str) (body : Str ⊎ Str)
    → usable (read_one unmarshal p body) ≡ true
    → IsComplete (read_one unmarshal p body)
unfolding read_one
read_one-IsComplete unmarshal p (inl e) h = absurd (ground arith)
read_one-IsComplete unmarshal p (inr body) h = split (unmarshal body) h
  where
    split :
        (r : Str ⊎ OnDisk)
        → usable (elim r [ inl e ↦ failed (blank p) (not_yaml e) | inr d ↦ read_parsed p d ]) ≡ true
        → IsComplete (elim r [ inl e ↦ failed (blank p) (not_yaml e) | inr d ↦ read_parsed p d ])
    split (inl e) g = absurd (ground arith)
    split (inr d) g = read_parsed-IsComplete p d g
