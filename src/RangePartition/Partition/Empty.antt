-- ===== src/RangePartition/Partition/Empty.antt =====
-- range_rangepartition.go, `Get`, on the empty key, whose version `ParseTs` reads as 0.
use autumn.Prelude.{◌≡◌, Option, none, some}
use autumn.RangePartition.Versions.{Found}
use autumn.RangePartition.Partition.{RangePartition}

-- Nothing was found, or something of version 0.
abbrev IsZero : Option Found → Type 0
IsZero none = Unit
IsZero (some a) = a.version ≡ 0
