-- ===== src/Fat/Tests/Files.antt =====
-- The theorems on files at the file of the small volume.
use nnxos.Prelude.{
  ℕ, zero, suc, false, map, ◌+◌, ◌≤◌, ◌<◌, ◌≡◌, ◌≢◌, refl, true, false, some, List, [], ◌∷◌, arith,
  ltb, ◌==◌, if◌then◌else◌,
}
use nnxos.Fat.{success, is_fat32, get_cluster_eof, is_cluster_eof}
use nnxos.Fat.Chain.{Vfs}
use nnxos.Fat.File.{DirectoryEntry, read_file, get_first_cluster_of_file, start_of, has_no_clusters}
use nnxos.Fat.File.Read.{content, present, IsPresent, IsFile}
use nnxos.Fat.File.ReadFile.{read_file-content}
use nnxos.Fat.File.Write.{write_sectors_to_file}
use nnxos.Fat.File.Write.Unwritable.{write_sectors_to_file-TakesNoWrites}
use nnxos.Fat.Name.{compare_name, compare_from, entry_name, end_of, to_uppercase}
use nnxos.Fat.Path.{entry_of_path}
use nnxos.Fat.Path.Created.{IsFileName, compare_name-entry_of_path}
use nnxos.Fat.Name.Prefix.{is_prefix, full_name, compare_name-is_prefix}
use nnxos.Fat.Tests.{bpb, disk, vfs, chain, inside, vfs-IsCoherent}

-- FOO.TXT, in clusters 2 and 3
abbrev entry : DirectoryEntry
entry = record {
  filename = λ i. if i == 0 then 70 else (if ltb i 3 then 79 else 32);
  file_extension = λ i. if i == 1 then 88 else 84;
  file_attributes = 0;
  low_cluster = 2;
  high_cluster = 0;
}

abbrev two_clusters : List ℕ
two_clusters = 2 ∷ 3 ∷ []

entry-IsFile : IsFile bpb disk (some entry) two_clusters vfs
unfolding has_no_clusters start_of get_first_cluster_of_file is_fat32
entry-IsFile = record {
  disk = refl;
  in_clusters = refl;
  chain = chain;
  inside = inside;
  coherent = vfs-IsCoherent;
}

both-IsPresent : (i : ℕ) → i ≤ 1 → IsPresent bpb disk two_clusters i
both-IsPresent zero h = present 2 refl refl
both-IsPresent (suc zero) h = present 3 refl refl
both-IsPresent (suc (suc i)) h = absurd (omega (arith, h))

read_file-content_example :
    let r = read_file bpb vfs (some entry) 500 24 (λ _. 0) 0 in
    (r.0 ≡ true)
    × (r.2 ≡ 24)
    × ((k : ℕ) → k < 24 → r.1 k ≡ content bpb disk two_clusters (500 + k))
    × ((k : ℕ) → 24 ≤ k → r.1 k ≡ 0)
read_file-content_example =
    read_file-content bpb vfs (some entry) two_clusters 500 24 (λ _. 0) 0
      (record {
        sectors = refl;
        some_bytes = λ e. absurd (omega (arith, e));
        below = omega arith;
        present = λ i h. both-IsPresent i (omega (arith, h.1));
      })
      entry-IsFile

-- The same volume, protected from writing.
abbrev protected : Vfs
protected = record { disk = record disk { writable = λ _. false }; cached = vfs.cached }

protected-IsFile : IsFile bpb protected.disk (some entry) two_clusters protected
unfolding has_no_clusters start_of get_first_cluster_of_file is_fat32
protected-IsFile = record {
  disk = refl;
  in_clusters = refl;
  chain = chain;
  inside = inside;
  coherent = vfs-IsCoherent;
}

write_sectors_to_file-TakesNoWrites_example :
    let r = write_sectors_to_file bpb protected (some entry) 0 (λ i. i) 2 in
    (r.0 ≡ success) × (r.1.disk ≡ protected.disk)
write_sectors_to_file-TakesNoWrites_example =
    write_sectors_to_file-TakesNoWrites bpb protected (some entry) two_clusters 0 (λ i. i) 2
      protected-IsFile (λ _. refl) (omega arith) (omega arith)

no_end : is_cluster_eof bpb 3 ≡ false
unfolding is_cluster_eof get_cluster_eof is_fat32
no_end = refl

-- "foo.txt"
abbrev foo_txt : List ℕ
foo_txt = 102 ∷ 111 ∷ 111 ∷ 46 ∷ 116 ∷ 120 ∷ 116 ∷ []

compare_name-is_prefix_example :
    compare_name entry foo_txt
    ≡ is_prefix (map to_uppercase foo_txt) (map to_uppercase (full_name entry))
compare_name-is_prefix_example = compare_name-is_prefix entry foo_txt (
  nonzero 101,
  (nonzero 110, (nonzero 110, (nonzero 45, (nonzero 115, (nonzero 119, (nonzero 115, tt)))))),
)
  where
    nonzero : (n : ℕ) → suc n ≢ 0
    nonzero n e = absurd (omega (arith, e))

-- The file "f" is found under the name of FOO.TXT.
short_name : compare_name entry (102 ∷ []) ≡ true
unfolding compare_name compare_from entry_name end_of to_uppercase
short_name = refl

foo_txt-IsFileName : IsFileName (70 ∷ 79 ∷ 79 ∷ []) (84 ∷ 88 ∷ 84 ∷ [])
foo_txt-IsFileName = record {
  name_part = record {
    some_characters = omega arith;
    fits = omega arith;
    last = λ e. absurd (omega (arith, e));
  };
  extension_part = record {
    some_characters = omega arith;
    fits = omega arith;
    last = λ e. absurd (omega (arith, e));
  };
  one_dot = refl;
  no_slash = refl;
  no_backslash = refl;
  is_string = (
    nonzero 69,
    (nonzero 78, (nonzero 78, (nonzero 45, (nonzero 83, (nonzero 87, (nonzero 83, tt)))))),
  );
}
  where
    nonzero : (n : ℕ) → suc n ≢ 0
    nonzero n e = absurd (omega (arith, e))

-- D/FOO.TXT
compare_name-entry_of_path_example :
    let entry = entry_of_path (68 ∷ 47 ∷ 70 ∷ 79 ∷ 79 ∷ 46 ∷ 84 ∷ 88 ∷ 84 ∷ []) in
    (full_name entry ≡ 70 ∷ 79 ∷ 79 ∷ 46 ∷ 84 ∷ 88 ∷ 84 ∷ [])
    × (compare_name entry (70 ∷ 79 ∷ 79 ∷ 46 ∷ 84 ∷ 88 ∷ 84 ∷ []) ≡ true)
compare_name-entry_of_path_example =
    compare_name-entry_of_path (68 ∷ []) (70 ∷ 79 ∷ 79 ∷ []) (84 ∷ 88 ∷ 84 ∷ []) (omega arith)
      foo_txt-IsFileName
