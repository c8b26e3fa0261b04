-- ===== src/Guard/Restorer/Examples.antt =====
-- Runs of internal/guard/restore.go: a placeholder that is cut in two.
use mathlib.Core.List.{flatten}
use proofgate.Base.{◌≡◌, ◌≢◌, refl, List, [], ◌∷◌, ◌++◌, arith}
use proofgate.Base.Bytes.{Bytes, codes}
use proofgate.Guard.Samples.{replace_whole, replace_whole_absent}
use proofgate.Guard.Restorer.{Mapping, scan, stream}
use proofgate.Guard.Restorer.Chunks.{IsShort}
use proofgate.Guard.Restorer.Stream.{IsClosed, stream_chunking, stream_restored}

abbrev mapping : Mapping
mapping = (codes "<EMAIL_1>", codes "ann@example.org") ∷ []

abbrev chunks : List Bytes
chunks = codes "Write to <EMA" ∷ codes "IL_1> if 1 < 2" ∷ []

mapping-IsShort : IsShort mapping
mapping-IsShort = (omega arith, tt)

mapping-IsClosed : IsClosed mapping
mapping-IsClosed = ((codes "<EMAIL_1", refl), tt)

mapping_some : mapping ≢ []
mapping_some = ground arith

stream_chunking_example :
    stream replace_whole mapping [] chunks ≡ stream replace_whole mapping [] (flatten chunks ∷ [])
stream_chunking_example = stream_chunking replace_whole mapping chunks mapping-IsShort

stream_restored_example :
    stream replace_whole mapping [] chunks
    ≡ (scan mapping (flatten chunks)).0 ++ (scan mapping (flatten chunks)).1
stream_restored_example =
    stream_restored replace_whole mapping chunks replace_whole_absent mapping_some mapping-IsShort
      mapping-IsClosed
