-- ===== src/LocalTarget/Tests.antt =====
-- A store whose port compose publishes.
use w17ctl.Base.{Str, codes, pos, Option, some, List, [], ◌∷◌}
use w17ctl.LocalTarget.{Publisher}

abbrev url_port : Str → Option Str
url_port d = some (codes "5433")

abbrev published : List Publisher
published = record { service = codes "main-postgres"; target = pos 5432; published = pos 5433 } ∷ []
