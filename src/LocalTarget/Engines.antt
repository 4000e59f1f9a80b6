-- ===== src/LocalTarget/Engines.antt =====
-- internal/localtarget/localtarget.go: the table of the engines' ports, read in both directions.
use w17ctl.Base.{
  ℕ, Str, str_eq, str_eq_iff, ◌==◌, Bool, true, false, Option, none, some, ◌≡◌, refl, sym, subst,
  ◌↔◌, if◌then◌else◌, arith,
}
use w17ctl.LocalTarget.{postgres, mysql, redis, engine_port, engine_in, dialect_by_engine_port}

-- `EnginePort` and `DialectByEnginePort` are inverse to each other: a dialect listens on a port exactly
-- when the port is that dialect's.
pub dialect_by_engine_port_iff :
    (d : Str) (p : ℕ) → (engine_port d ≡ some p) ↔ (dialect_by_engine_port p ≡ some d)
unfolding engine_port dialect_by_engine_port engine_in str_eq
dialect_by_engine_port_iff d p = (
  λ h. there (str_eq d postgres) (str_eq d mysql) (str_eq d redis) refl refl refl h,
  λ h. back (5432 == p) (3306 == p) (6379 == p) refl refl refl h,
)
  where
    there :
        (a b c : Bool)
        → str_eq d postgres ≡ a
        → str_eq d mysql ≡ b
        → str_eq d redis ≡ c
        → ◌≡◌ {A = Option ℕ}
            (if a then some 5432 else if b then some 3306 else if c then some 6379 else none)
            (some p)
        → dialect_by_engine_port p ≡ some d
    there true b c x y z h =
        subst (λ e. dialect_by_engine_port p ≡ some e) (sym ((str_eq_iff d postgres).0 x))
          (ground arith)
    there false true c x y z h =
        subst (λ e. dialect_by_engine_port p ≡ some e) (sym ((str_eq_iff d mysql).0 y))
          (ground arith)
    there false false true x y z h =
        subst (λ e. dialect_by_engine_port p ≡ some e) (sym ((str_eq_iff d redis).0 z))
          (ground arith)
    there false false false x y z h = absurd (ground arith)

    of_some : (e : Str) → ◌≡◌ {A = Option Str} (some e) (some d) → e ≡ d
    of_some e q = ground arith

    back :
        (a b c : Bool)
        → (5432 == p) ≡ a
        → (3306 == p) ≡ b
        → (6379 == p) ≡ c
        → ◌≡◌ {A = Option Str}
            (if a then some postgres else if b then some mysql else if c then some redis else none)
            (some d)
        → engine_port d ≡ some p
    back true b c x y z h = subst (λ e. engine_port e ≡ some p) (of_some postgres h) (ground arith)
    back false true c x y z h = subst (λ e. engine_port e ≡ some p) (of_some mysql h) (ground arith)
    back false false true x y z h =
        subst (λ e. engine_port e ≡ some p) (of_some redis h) (ground arith)
    back false false false x y z h = absurd (ground arith)
