-- ===== src/Persistence/RoundTrip/Loads.antt =====
-- The loop of the loader, up to the end of the file.
use mathlib.Core.List.{foldl, foldl-append, append_assoc}
use shrikedb.Prelude.{
  ℕ, zero, suc, ◌^◌, ◌≡◌, ◌<◌, refl, ap, List, [], ◌∷◌, ◌++◌, arith, length, length-append,
}
use shrikedb.Std.Bytes.{Bytes}
use shrikedb.Persistence.Format.{opcode_eof, crc64, le_bytes}
use shrikedb.Persistence.Format.Laws.{crc64-lt, from_le-le_bytes}
use shrikedb.Persistence.Save.{Chunks}
use shrikedb.Persistence.Load.{
  RdbEntry, RdbLoader, Result, ok, fail, stuck, ◌>>=◌, result_of, cons_entry, finished, go_on,
  entry, read_round, check_eof, on_opcode, load_entries, read_u64_le_no_crc,
}
use shrikedb.Persistence.RoundTrip.Reads.{loader_at, concat, concat-append, Reads, read_byte-Reads}

-- The mark of the end and the checksum of all before.
abbrev pub file_end : ℕ → Bytes
file_end crc = opcode_eof ∷ le_bytes 8 (crc64 crc (opcode_eof ∷ []))

read_checksum :
    (v crc db version : ℕ)
    → v < 2 ^ 64
    → read_u64_le_no_crc (loader_at (le_bytes 8 v) crc db version)
      ≡ ok (v, loader_at [] crc db version)
unfolding read_u64_le_no_crc le_bytes
read_checksum v crc db version h =
    ap (λ n. ok (n, loader_at [] crc db version)) (from_le-le_bytes 8 v h)

check_eof_lem :
    (crc db version : ℕ)
    → crc < 2 ^ 64
    → check_eof (loader_at (le_bytes 8 crc) crc db version)
      ≡ ok (finished, loader_at [] crc db version)
unfolding check_eof
check_eof_lem crc db version h =
    rw (check_eof, ◌>>=◌, read_checksum crc crc db version h) (ground arith)

read_end :
    (crc db version : ℕ)
    → crc < 2 ^ 64
    → read_round (loader_at (file_end crc) crc db version)
      ≡ ok (finished, loader_at [] (crc64 crc (opcode_eof ∷ [])) db version)
unfolding read_round on_opcode
read_end crc db version h =
    let after = crc64 crc (opcode_eof ∷ []) in
    rw (read_round, ◌>>=◌, (read_byte-Reads opcode_eof).runs crc version (le_bytes 8 after))
      (check_eof_lem after db version (crc64-lt crc (opcode_eof ∷ []) h))

-- The loop on the slices and the end of the file gives the entries, on enough fuel.
pub record Loads (from : ℕ) (chunks : Chunks) (es : List RdbEntry) : Type 0 where
  pub loads :
      (crc version fuel : ℕ)
      → crc < 2 ^ 64
      → length (concat chunks) < fuel
      → result_of (
          load_entries fuel
            (loader_at (concat chunks ++ file_end (foldl crc64 crc chunks)) crc from version))
        ≡ ok es

pub foldl-lt : (chunks : Chunks) (crc : ℕ) → crc < 2 ^ 64 → foldl crc64 crc chunks < 2 ^ 64
foldl-lt [] crc h = h
foldl-lt (d ∷ chunks) crc h = foldl-lt chunks (crc64 crc d) (crc64-lt crc d h)

load_entries-end :
    (from crc version fuel : ℕ)
    → crc < 2 ^ 64
    → 0 < fuel
    → result_of (load_entries fuel (loader_at (file_end crc) crc from version)) ≡ ok []
unfolding load_entries
load_entries-end from crc version zero h p = absurd (omega arith)
load_entries-end from crc version (suc f) h p = rw (load_entries, read_end crc from version h) refl

pub Loads-end : {from : ℕ} → Loads from [] []
Loads-end {from} = record { loads = load_entries-end from }

cons_entry-result :
    (e : RdbEntry) (es : List RdbEntry) (r : Result (List RdbEntry × RdbLoader))
    → result_of r ≡ ok es
    → result_of (cons_entry e r) ≡ ok (e ∷ es)
cons_entry-result e es (ok (es', l)) h = ground arith
cons_entry-result e es (fail x) h = cc
cons_entry-result e es stuck h = cc

shorter :
    (cs ds : Chunks) (f : ℕ)
    → 0 < length (concat cs)
    → length (concat (cs ++ ds)) < suc f
    → length (concat ds) < f
shorter cs ds f some_bytes p =
    omega (arith, ap length (concat-append cs ds), length-append (concat cs) (concat ds))

module _ {from to : ℕ} (cs ds : Chunks) (es : List RdbEntry) (some_bytes : 0 < length (concat cs))
    (rest : Loads to ds es) where
  after_go_on :
      Reads from to cs read_round go_on
      → (crc version fuel : ℕ) → crc < 2 ^ 64
      → length (concat (cs ++ ds)) < fuel
      → result_of (
          load_entries fuel (
            loader_at
              (concat (cs ++ ds) ++ file_end (foldl crc64 crc (cs ++ ds)))
              crc
              from
              version))
        ≡ ok es
  unfolding load_entries
  after_go_on round crc version zero h p = absurd (omega arith)
  after_go_on round crc version (suc f) h p =
      let ends = file_end (foldl crc64 (foldl crc64 crc cs) ds) in
      rw
        (
          foldl-append,
          concat-append cs ds,
          append_assoc (concat cs) (concat ds) ends,
          load_entries,
          round.runs crc version (concat ds ++ ends),
        )
        (rest.loads (foldl crc64 crc cs) version f (foldl-lt cs crc h)
          (shorter cs ds f some_bytes p))

  pub Loads-go_on : Reads from to cs read_round go_on → Loads from (cs ++ ds) es
  Loads-go_on round = record { loads = after_go_on round }

  after_entry :
      (e : RdbEntry)
      → Reads from to cs read_round (entry e)
      → (crc version fuel : ℕ) → crc < 2 ^ 64
      → length (concat (cs ++ ds)) < fuel
      → result_of (
          load_entries fuel (
            loader_at
              (concat (cs ++ ds) ++ file_end (foldl crc64 crc (cs ++ ds)))
              crc
              from
              version))
        ≡ ok (e ∷ es)
  unfolding load_entries
  after_entry e round crc version zero h p = absurd (omega arith)
  after_entry e round crc version (suc f) h p =
      let ends = file_end (foldl crc64 (foldl crc64 crc cs) ds) in
      rw
        (
          foldl-append,
          concat-append cs ds,
          append_assoc (concat cs) (concat ds) ends,
          load_entries,
          round.runs crc version (concat ds ++ ends),
        )
        (cons_entry-result e es _ (
          rest.loads (foldl crc64 crc cs) version f (foldl-lt cs crc h)
            (shorter cs ds f some_bytes p)))

  pub Loads-entry :
      (e : RdbEntry) → Reads from to cs read_round (entry e) → Loads from (cs ++ ds) (e ∷ es)
  Loads-entry e round = record { loads = after_entry e round }
