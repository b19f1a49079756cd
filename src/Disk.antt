-- ===== src/Disk.antt =====
-- Files by their path, for the parts of cmd/nextpath-engine/main.go and internal/parser/compiler.go that
-- write and remove files.
use next_path.Base.Map
use next_path.Base.Map.{Map}
use next_path.Base.{List, ◌∷◌, ite, Option, none, some, ◌≡◌, arith}
use next_path.Net.{Bytes, Bytes-discrete}

-- The contents of files by their path, and the directories asked for, last first.
pub record Disk : Type 0 where
  pub contents : Map Bytes Bytes
  pub dirs : List Bytes

abbrev pub read : Bytes → Disk → Option Bytes
read path d = Map.get Bytes-discrete path d.contents

abbrev pub write : Bytes → Bytes → Disk → Disk
write path data_of d = record d { contents = Map.put Bytes-discrete path data_of d.contents }

abbrev pub remove : Bytes → Disk → Disk
remove path d = record d { contents = Map.delete Bytes-discrete path d.contents }

abbrev pub mkdir_all : Bytes → Disk → Disk
mkdir_all path d = record d { dirs = path ∷ d.dirs }

pub read-write :
    (q path x : Bytes) (d : Disk)
    → read q (write path x d) ≡ ite (Bytes-discrete q path) (some x) (read q d)
read-write q path x d = Map.get-put Bytes-discrete q path x d.contents

pub read-remove :
    (q path : Bytes) (d : Disk)
    → read q (remove path d) ≡ ite (Bytes-discrete q path) none (read q d)
read-remove q path d = Map.get-delete Bytes-discrete q path d.contents

-- A temporary file that was written and removed.
pub cleaned :
    (q tmp x : Bytes) (d : Disk)
    → read q (remove tmp (write tmp x d)) ≡ ite (Bytes-discrete q tmp) none (read q d)
cleaned q tmp x d = ground (arith, read-remove q tmp (write tmp x d), read-write q tmp x d)

pub cleaned_twice :
    (q tmp x y : Bytes) (d : Disk)
    → read q (remove tmp (write tmp x (write tmp y d))) ≡ ite (Bytes-discrete q tmp) none (read q d)
cleaned_twice q tmp x y d = ground (arith, cleaned q tmp x (write tmp y d), read-write q tmp y d)
