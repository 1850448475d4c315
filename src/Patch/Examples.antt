-- ===== src/Patch/Examples.antt =====
-- A small patch on a disk in memory, and the theorems about the patch engine at it.
use mathlib.Core.Path.{subst}
use uv_agent.Common.{
  All, ℕ, ◌≡◌, ◌≢◌, ◌<◌, refl, sym, Bool, true, false, not, ◌&&◌, Option, none, some, List, [], ◌∷◌,
  if◌then◌else◌, is_some, ◌⊎◌, inl, inr, ap, arith, map, length,
}
use uv_agent.Common.Text.{Text, lit, text_eq, text_eq_iff, drop_last, ends_with, strip, concat}
use uv_agent.Common.Lines.{read_lines, splitlines_keepends}
use uv_agent.Patch.Error.{Error, out_of_fuel, hunk_not_found, ok, err}
use uv_agent.Patch.Parse.{Hunk, FileOp, add_file, delete_file, update_file, parse_patch}
use uv_agent.Patch.Parse.Render.{IsOp, IsHunk, render_patch}
use uv_agent.Patch.Parse.Fuel.{parse_patch-ne_out_of_fuel}
use uv_agent.Patch.Parse.Roundtrip.{parse_patch-render_patch}
use uv_agent.Patch.Hunks.{
  load, lf, old_side, find_subsequence, search, lines_eq, line_body, detect_newline, locate,
  replace_at, replacement_lines, apply_hunk, apply_each, apply_hunks,
}
use uv_agent.Patch.Hunks.Search.{First, Occurs, find_subsequence-First}
use uv_agent.Patch.Hunks.Bodies.{Patched, apply_hunks-Patched, apply_hunk-err}
use uv_agent.Patch.Hunks.Unterminated.{apply_hunks-joins}
use uv_agent.Patch.Disk.{Disk, Laws, Entry, file, unreadable, directory, text_of, Files, put}
use uv_agent.Patch.Apply.{remove_empty_parents, stage_ops}
use uv_agent.Patch.Apply.Spec.{run_ops}
use uv_agent.Patch.Apply.Staging.{overlay, map_result, stage_ops-overlay}
use uv_agent.Patch.Apply.Writes.{Meant, apply_ops-Meant}
use uv_agent.Patch.Apply.Parents.{Removes, remove_empty_parents-Removes}
use uv_agent.Patch.Envelope.{apply_patch, dry_run_patch, contains, sorted, changed_files_of}
use uv_agent.Patch.Envelope.Agreement.{Refused, Accepted, dry_run_patch-apply_patch}
use uv_agent.Patch.Envelope.Changed.{IsAscending, is_named, sorted-changed_files_of}

-- In the disk the paths have one letter, but for "a/b", whose parent is "a".
abbrev is_a : Text → Bool
is_a p = text_eq p (lit "a")

abbrev is_directory : Option Entry → Bool
is_directory none = false
is_directory (some (file text)) = false
is_directory (some unreadable) = false
is_directory (some directory) = true

-- The directory "a" can be removed when it is empty.
abbrev is_removable : Files → Text → Bool
is_removable s p = is_a p && (is_directory (s p) && not (is_some (s (lit "a/b"))))

-- "a/b" needs the directory "a", which is made if nothing stands there.
abbrev make_a : Files → Option Entry → Option Files
make_a s none = some (put s (lit "a") (some directory))
make_a s (some (file text)) = none
make_a s (some unreadable) = none
make_a s (some directory) = some s

abbrev memory : Disk
memory = record {
  State = Files;
  workdir = [];
  resolve = λ name. if text_eq name (lit "..") then none else some name;
  parent = drop_last 2;
  exists = λ s p. is_some (s p);
  read_text = λ s p. text_of (s p);
  unlink = λ s p. if is_directory (s p) then none else some (put s p none);
  rmdir = λ s p. if is_removable s p then some (put s p none) else none;
  make_parents = λ s p. if text_eq p (lit "a/b") then make_a s (s (lit "a")) else some s;
  write_text = λ s p t. if is_directory (s p) then none else some (put s p (some (file t)));
}

memory-some : {s s' : Files} → some s ≡ some s' → s' ≡ s
memory-some e = cc

-- What a guarded operation does where it succeeds.
memory-guarded :
    (refuses : Bool) (s s' : Files) → (if refuses then none else some s) ≡ some s' → s' ≡ s
memory-guarded true s s' e = cc
memory-guarded false s s' e = memory-some e

is_directory-eq : (entry : Option Entry) → is_directory entry ≡ true → entry ≡ some directory
is_directory-eq none d = cc
is_directory-eq (some (file text)) d = cc
is_directory-eq (some unreadable) d = cc
is_directory-eq (some directory) d = refl

-- What the removal of a directory, where it succeeds, says of its path and of the disk.
memory-rmdir :
    (s s' : Files) (p : Text)
    → memory.rmdir s p ≡ some s'
    → (is_a p ≡ true) × (s p ≡ some directory) × (s' ≡ put s p none)
memory-rmdir s s' p h = go (is_a p) (is_directory (s p)) (is_some (s (lit "a/b"))) refl refl h
  where
    go :
        (here there full : Bool)
        → is_a p ≡ here
        → is_directory (s p) ≡ there
        → (if here && (there && not full) then some (put s p none) else none) ≡ some s'
        → (is_a p ≡ true) × (s p ≡ some directory) × (s' ≡ put s p none)
    go true true false a d e = (a, is_directory-eq (s p) d, memory-some e)
    go true true true a d e = cc
    go true false full a d e = cc
    go false there full a d e = cc

memory-make_parents :
    (s s' : Files) (p q : Text)
    → memory.make_parents s p ≡ some s'
    → (s' q ≡ s q) ⊎ ((s q ≡ none) × (s' q ≡ some directory))
memory-make_parents s s' p q h = go (text_eq p (lit "a/b")) (s (lit "a")) refl h
  where
    at_a :
        (here : Bool)
        → text_eq (lit "a") q ≡ here
        → s (lit "a") ≡ none
        → (put s (lit "a") (some directory) q ≡ s q)
          ⊎ ((s q ≡ none) × (put s (lit "a") (some directory) q ≡ some directory))
    at_a true e absent =
        inr (subst (λ r. s r ≡ none) ((text_eq_iff (lit "a") q).0 e) absent, rw e refl)
    at_a false e absent = inl (rw e refl)

    go :
        (below : Bool) (entry : Option Entry)
        → s (lit "a") ≡ entry
        → (if below then make_a s entry else some s) ≡ some s'
        → (s' q ≡ s q) ⊎ ((s q ≡ none) × (s' q ≡ some directory))
    go true none absent e =
        subst (λ (f : Files). (f q ≡ s q) ⊎ ((s q ≡ none) × (f q ≡ some directory)))
          (sym (memory-some e)) (at_a (text_eq (lit "a") q) refl absent)
    go true (some (file text)) there e = cc
    go true (some unreadable) there e = cc
    go true (some directory) there e = inl (ap (λ (f : Files). f q) (memory-some e))
    go false entry there e = inl (ap (λ (f : Files). f q) (memory-some e))

memory-parent : (p : Text) → is_a p ≡ true → length (drop_last 2 p) < length p
memory-parent p d =
    subst (λ q. length (drop_last 2 q) < length q) (sym ((text_eq_iff p (lit "a")).0 d))
      (omega arith)

abbrev memory_laws : Laws memory
memory_laws = record {
  content = λ s. s;
  IsCanonical = λ p. Unit {0};
  resolve_lem = λ name p e. tt;
  parent_lem = λ p f. tt;
  exists_lem = λ s p f. refl;
  read_lem = λ s p f. refl;
  unlink_lem = λ s s' p f e. memory-guarded (is_directory (s p)) (put s p none) s' e;
  rmdir_lem = λ s s' p f e. ((memory-rmdir s s' p e).1, (memory-rmdir s s' p e).2);
  shorter_lem = λ s s' p f e. memory-parent p (memory-rmdir s s' p e).0;
  make_parents_lem = λ s s' p f e q. memory-make_parents s s' p q e;
  write_lem = λ s s' p t f e. memory-guarded (is_directory (s p)) (put s p (some (file t))) s' e;
}

abbrev str : Error → Text
str e = lit "error"

-- "a" is a directory, "a/b" has two lines, and "u" cannot be read.
abbrev files : Files
files =
    put (put (put (λ p. none) (lit "a") (some directory)) (lit "u") (some unreadable)) (lit "a/b")
      (some (file (lit "one\ntwo\n")))

abbrev hunk : Hunk
hunk = lit " one" ∷ lit "-two" ∷ lit "+2" ∷ []

abbrev ops : List FileOp
ops =
    update_file (lit "a/b") (hunk ∷ []) (some (lit "c"))
    ∷ add_file (lit "d") (lit "new" ∷ [])
    ∷ delete_file (lit "c")
    ∷ []

abbrev two_lines : List Text
two_lines = lit "one" ∷ lit "two" ∷ lit "one" ∷ []

engine : Unit {0}
unfolding render_patch parse_patch apply_hunks apply_each apply_hunk locate old_side replace_at
    replacement_lines splitlines_keepends read_lines lines_eq search find_subsequence line_body
    detect_newline text_eq ends_with concat strip
engine = tt

hunks-IsHunk : All IsHunk (hunk ∷ [])
hunks-IsHunk = ground arith

ops-IsOp : All IsOp ops
unfolding engine
ops-IsOp = ground arith

parse_patch-ne_out_of_fuel_example :
    parse_patch (lit "*** Begin Patch\n*** Add File: a\n+x\n*** End Patch") ≢ err out_of_fuel
parse_patch-ne_out_of_fuel_example =
    parse_patch-ne_out_of_fuel (lit "*** Begin Patch\n*** Add File: a\n+x\n*** End Patch")

parse_patch-render_patch_example : parse_patch (render_patch ops) ≡ ok ops
parse_patch-render_patch_example = parse_patch-render_patch ops (λ e. cc) ops-IsOp

find_subsequence-First_example :
    First two_lines (lit "one" ∷ []) 1 (find_subsequence two_lines (lit "one" ∷ []) 1)
find_subsequence-First_example = find_subsequence-First two_lines (lit "one" ∷ []) 1

apply_hunks-run : apply_hunks (lit "one\ntwo\n") (hunk ∷ []) (lit "b") ≡ ok (lit "one\n2\n")
unfolding engine
apply_hunks-run = refl

apply_hunks-Patched_example :
    (lines : List Text) × (lit "one\n2\n" ≡ concat lines)
    × Patched
        (hunk ∷ [])
        (map line_body (splitlines_keepends (lit "one\ntwo\n")))
        (map line_body lines)
apply_hunks-Patched_example =
    apply_hunks-Patched (lit "one\ntwo\n") (hunk ∷ []) (lit "b") (lit "one\n2\n") hunks-IsHunk
      apply_hunks-run

apply_hunk-refused :
    apply_hunk (lit "b") lf hunk (load (lit "two\n")) ≡ err (hunk_not_found (lit "b"))
unfolding engine
apply_hunk-refused = refl

apply_hunk-err_example :
    (hunk_not_found (lit "b") ≡ hunk_not_found (lit "b"))
    × ((j : ℕ) → ¬ (Occurs (load (lit "two\n")).bodies (old_side hunk) j))
apply_hunk-err_example =
    apply_hunk-err (lit "b") lf hunk (load (lit "two\n")) (hunk_not_found (lit "b"))
      apply_hunk-refused

apply_hunks-joins_example :
    apply_hunks (lit "x") ((lit " x" ∷ lit "+y" ∷ []) ∷ []) (lit "b") ≡ ok (lit "xy\n")
apply_hunks-joins_example = apply_hunks-joins b'x' [] (lit "y") (lit "b") (refl, tt)

stage_ops-overlay_example :
    map_result (overlay files) (stage_ops memory files ops [])
    ≡ run_ops memory.resolve ops (overlay files [])
stage_ops-overlay_example = stage_ops-overlay memory memory_laws files ops []

apply_ops-Meant_example : Meant memory memory_laws ops files (run_ops memory.resolve ops files)
apply_ops-Meant_example = apply_ops-Meant memory memory_laws ops files

remove_empty_parents-Removes_example :
    Removes memory (lit "a") files (remove_empty_parents memory 2 (lit "a") files)
remove_empty_parents-Removes_example =
    remove_empty_parents-Removes memory memory_laws 2 (lit "a") files tt (omega arith)

dry_run_patch-apply_patch_example :
    Refused memory memory_laws str false files
      (dry_run_patch memory str (render_patch ops) false files)
      (apply_patch memory str (render_patch ops) false files)
    ⊎ Accepted memory memory_laws str false
        (parse_patch (render_patch ops))
        files
        (dry_run_patch memory str (render_patch ops) false files)
        (apply_patch memory str (render_patch ops) false files)
dry_run_patch-apply_patch_example =
    dry_run_patch-apply_patch memory memory_laws str (render_patch ops) false files

sorted-changed_files_of_example :
    IsAscending (sorted (changed_files_of ops []))
    × ((path : Text) → contains path (sorted (changed_files_of ops [])) ≡ is_named path ops)
sorted-changed_files_of_example = sorted-changed_files_of ops
