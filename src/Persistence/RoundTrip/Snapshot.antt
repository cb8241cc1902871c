-- ===== src/Persistence/RoundTrip/Snapshot.antt =====
-- `load_rdb` of `save_rdb`: what a restart restores.
use mathlib.Core.List.{foldl, append_assoc, append-nil}
use shrikedb.Prelude.{◌+◌, ◌≡◌, refl, sym, List, [], ◌∷◌, ◌++◌, arith, length, length-append}
use shrikedb.Std.Bytes.{Bytes, codes, bytes_eq}
use shrikedb.Std.Integer.{parse_u64}
use shrikedb.Persistence.Format.{opcode_eof, crc64, le_bytes}
use shrikedb.Persistence.Save.{
  Chunks, ShardSnapshot, RdbSaver, write_bytes, write_all, write_aux, write_header, write_dbs,
  all_entries, write_preamble, new_saver, save_rdb, write_eof,
}
use shrikedb.Persistence.Load.{◌>>=◌, RdbEntry, ok, new_loader, read_header, load_all}
use shrikedb.Persistence.RoundTrip.Reads.{loader_at, concat, read_exact-Reads}
use shrikedb.Persistence.RoundTrip.Entries.{IsWord, write_aux-Reads}
use shrikedb.Persistence.RoundTrip.Loads.{Loads, foldl-lt, Loads-go_on, file_end}
use shrikedb.Persistence.RoundTrip.File.{AllSaved, restored_dbs, write_dbs-Loads, aux-some_bytes}

write_all-writer : (cs : Chunks) (s : RdbSaver) → (write_all cs s).writer ≡ s.writer ++ concat cs
unfolding write_all write_bytes
write_all-writer [] s = sym (append-nil s.writer)
write_all-writer (c ∷ cs) s =
    rw (write_all-writer cs (write_bytes s c)) (append_assoc s.writer c (concat cs))

write_all-crc : (cs : Chunks) (s : RdbSaver) → (write_all cs s).crc ≡ foldl crc64 s.crc cs
unfolding write_all write_bytes
write_all-crc [] s = refl
write_all-crc (c ∷ cs) s = write_all-crc cs (write_bytes s c)

-- The bytes of the file: all slices, and the end.
write_eof-writer :
    (cs : Chunks)
    → (write_eof (write_all cs new_saver)).writer ≡ concat cs ++ file_end (foldl crc64 0 cs)
unfolding write_eof
write_eof-writer cs =
    let mark = opcode_eof ∷ [] in
    rw
      (
        write_all-crc cs new_saver,
        write_all-writer cs new_saver,
        append_assoc (concat cs) mark (le_bytes 8 (crc64 (foldl crc64 0 cs) mark)),
      )
      refl

abbrev aux_fields : Chunks
aux_fields =
    write_aux (codes "redis-ver") (codes "7.0.0")
    ++ write_aux (codes "shrikedb-ver") (codes "0.1.0")

read_header_lem :
    (rest : Bytes)
    → read_header (new_loader (codes "REDIS0009" ++ rest))
      ≡ ok (9, loader_at rest (foldl crc64 0 write_header) 0 9)
unfolding read_header write_header bytes_eq parse_u64
read_header_lem rest =
    rw
      (
        read_header,
        ◌>>=◌,
        (read_exact-Reads (codes "REDIS") refl).runs 0 0 (codes "0009" ++ rest),
        (read_exact-Reads (codes "0009") refl).runs (crc64 0 (codes "REDIS")) 0 rest,
      )
      refl

aux_fields-Loads :
    (ds : Chunks) (es : List RdbEntry) → Loads 0 ds es → Loads 0 (aux_fields ++ ds) es
aux_fields-Loads ds es rest =
    rw
      (append_assoc (write_aux (codes "redis-ver") (codes "7.0.0"))
        (write_aux (codes "shrikedb-ver") (codes "0.1.0")) ds)
      (Loads-go_on (write_aux (codes "redis-ver") (codes "7.0.0"))
        (write_aux (codes "shrikedb-ver") (codes "0.1.0") ++ ds) es
        (aux-some_bytes (codes "redis-ver") (codes "7.0.0"))
        (Loads-go_on (write_aux (codes "shrikedb-ver") (codes "0.1.0")) ds es
          (aux-some_bytes (codes "shrikedb-ver") (codes "0.1.0")) rest
          (write_aux-Reads (codes "shrikedb-ver") (codes "0.1.0") (omega arith) (omega arith)))
        (write_aux-Reads (codes "redis-ver") (codes "7.0.0") (omega arith) (omega arith)))

load_all-Loads :
    (cs : Chunks) (es : List RdbEntry)
    → Loads 0 cs es
    → load_all (concat (write_header ++ cs) ++ file_end (foldl crc64 0 (write_header ++ cs)))
      ≡ ok es
unfolding load_all write_header
load_all-Loads cs es rest =
    let after = concat cs ++ file_end (foldl crc64 (foldl crc64 0 write_header) cs) in
    let reader = codes "REDIS0009" ++ after in
    rw (load_all, ◌>>=◌, read_header_lem after)
      (rest.loads (foldl crc64 0 write_header) 9 (length reader + 1)
        (foldl-lt write_header 0 (omega arith))
        (omega (
          arith,
          length-append (concat cs) (file_end (foldl crc64 (foldl crc64 0 write_header) cs)),
        )))

slices : List ShardSnapshot → Chunks
slices snapshots = aux_fields ++ write_dbs 16 0 (all_entries snapshots)

save_rdb-writer :
    (snapshots : List ShardSnapshot)
    → (save_rdb snapshots).writer
      ≡ concat (write_header ++ slices snapshots)
        ++ file_end (foldl crc64 0 (write_header ++ slices snapshots))
unfolding save_rdb slices
save_rdb-writer snapshots =
    rw (sym (append_assoc write_header aux_fields (write_dbs 16 0 (all_entries snapshots))))
      (write_eof-writer (write_preamble ++ write_dbs 16 0 (all_entries snapshots)))

-- The bytes that save_rdb writes are loaded, and give back the strings and the integers of the
-- databases 0 to 15, each with its key, its bytes and its deadline, by database and then in the order
-- of the shards. There are fewer than 2 ^ 64 entries, the lengths of keys and values and the deadlines
-- are below 2 ^ 64, and the values of other types, which are left out, have no deadline.
pub load_all-save_rdb :
    (snapshots : List ShardSnapshot)
    → IsWord (length (all_entries snapshots))
    → AllSaved (all_entries snapshots)
    → load_all (save_rdb snapshots).writer ≡ ok (restored_dbs 16 0 (all_entries snapshots))
unfolding slices
load_all-save_rdb snapshots w saved = rw (save_rdb-writer snapshots) (
    load_all-Loads (slices snapshots) (restored_dbs 16 0 (all_entries snapshots)) (
      aux_fields-Loads (write_dbs 16 0 (all_entries snapshots))
        (restored_dbs 16 0 (all_entries snapshots))
        (write_dbs-Loads 16 0 (all_entries snapshots) (omega arith) w saved 0)))
