-- ===== src/Persistence/RoundTrip/Reads.antt =====
-- A reader on the slices that a writer gave: the value, and the rules that build one from another.
use mathlib.Core.List.{foldl, foldl-append, append_assoc, append-nil}
use shrikedb.Prelude.{
  ℕ, ◌^◌, ◌≡◌, ◌<◌, refl, sym, ap, true, [], ◌∷◌, ◌++◌, leb, arith, length, length-append,
  take-append, drop-append,
}
use shrikedb.Std.Bytes.{Bytes}
use shrikedb.Persistence.Format.{crc64, le_bytes}
use shrikedb.Persistence.Format.Laws.{from_le-le_bytes, length-le_bytes}
use shrikedb.Persistence.Save.{Chunks, write_byte}
use shrikedb.Persistence.Load.{RdbLoader, ok, M, pure, ◌>>=◌, read_exact, read_byte, read_u64_le}

abbrev pub loader_at : Bytes → ℕ → ℕ → ℕ → RdbLoader
loader_at reader crc db version = record {
  reader = reader;
  crc = crc;
  current_db = db;
  rdb_version = version;
}

abbrev pub concat : Chunks → Bytes
concat [] = []
concat (d ∷ chunks) = d ++ concat chunks

-- On the slices the reader gives the value, goes from one database to the other, and counts the
-- checksum as the saver does, whatever follows.
pub record Reads {A : Type 0} (from to : ℕ) (chunks : Chunks) (m : M A) (v : A) : Type 0 where
  pub runs :
      (crc version : ℕ) (rest : Bytes)
      → m (loader_at (concat chunks ++ rest) crc from version)
        ≡ ok (v, loader_at rest (foldl crc64 crc chunks) to version)

pub concat-append : (cs ds : Chunks) → concat (cs ++ ds) ≡ concat cs ++ concat ds
concat-append [] ds = refl
concat-append (c ∷ cs) ds = rw (concat-append cs ds, append_assoc c (concat cs) (concat ds)) refl

pub Reads-pure : {A : Type 0} {db : ℕ} {v w : A} → v ≡ w → Reads db db [] (pure v) w
Reads-pure {db} e = record {
  runs = λ crc version rest. ap (λ w. ok (w, loader_at rest crc db version)) e;
}

pub Reads->>= :
    {A B : Type 0} {m : M A} {v : A} {w : B} {from mid to : ℕ} {cs ds : Chunks} (k : A → M B)
    → Reads from mid cs m v
    → Reads mid to ds (k v) w
    → Reads from to (cs ++ ds) (m >>= k) w
Reads->>= {cs} {ds} k hm hk = record {
  runs = λ crc version rest.
      rw
        (
          concat-append cs ds,
          append_assoc (concat cs) (concat ds) rest,
          ◌>>=◌,
          hm.runs crc version (concat ds ++ rest),
          foldl-append,
        )
        (hk.runs (foldl crc64 crc cs) version rest);
}

read_exact_all-Reads : (db : ℕ) (d : Bytes) → Reads db db (d ∷ []) (read_exact (length d)) d
unfolding read_exact
read_exact_all-Reads db d = record {
  runs = λ crc version rest.
      let fits : leb (length d) (length (d ++ rest)) ≡ true =
        ground (arith, length-append d rest) in
      rw (append-nil d, read_exact, fits, take-append d rest, drop-append d rest) refl;
}

pub read_exact-Reads : {db n : ℕ} (d : Bytes) → n ≡ length d → Reads db db (d ∷ []) (read_exact n) d
read_exact-Reads {db} d h = rw h (read_exact_all-Reads db d)

pub read_byte-Reads : {db : ℕ} (b : ℕ) → Reads db db (write_byte b) read_byte b
unfolding read_byte
read_byte-Reads b = Reads->>= _ (read_exact-Reads (b ∷ []) refl) (Reads-pure refl)

pub read_u64_le-Reads :
    {db : ℕ} (v : ℕ) → v < 2 ^ 64 → Reads db db (le_bytes 8 v ∷ []) read_u64_le v
unfolding read_u64_le
read_u64_le-Reads v h =
    Reads->>= _ (read_exact-Reads (le_bytes 8 v) (sym (length-le_bytes 8 v)))
      (Reads-pure (from_le-le_bytes 8 v h))

-- A last step that reads nothing.
pub Reads-then :
    {A B : Type 0} {m : M A} {v : A} {w : B} {from mid to : ℕ} {cs : Chunks} (k : A → M B)
    → Reads from mid cs m v
    → Reads mid to [] (k v) w
    → Reads from to cs (m >>= k) w
Reads-then {cs} k hm hk = rw (sym (append-nil cs)) (Reads->>= k hm hk)
