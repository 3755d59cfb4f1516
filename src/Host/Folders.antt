-- ===== src/Host/Folders.antt =====
-- Folders: what `createFolder` promises.
use web_based_jobs_worker_se.Base.{◌≡◌, refl, Bool, true, false, Option, none, some, arith, Text}
use web_based_jobs_worker_se.Host.{
  Entry, missing, folder, hidden, unreadable, file, failed, Error, Machine, put_entry, Step, next,
  create_folder,
}

-- What is at the path when the function is done, and its error.
abbrev pub made : Entry → Bool → Text → Machine → Step (Option Error)
made missing true path m = next none (put_entry path folder m)
made missing false path m = next (some failed) m
made hidden able path m = next (some failed) m
made found able path m = next none m

-- `createFolder` makes the folder where nothing is and it can, fails where it cannot or where the
-- path cannot be looked at, and else changes nothing and reports no error: also where the path is a
-- file.
pub create_folder_lem :
    (path : Text) (m : Machine)
    → create_folder path m ≡ made (m.entry path) (m.writable path) path m
unfolding create_folder
create_folder_lem path m = by_entry (m.entry path) refl (m.writable path) refl
  where
    by_entry :
        (e : Entry)
        → m.entry path ≡ e
        → (able : Bool) → m.writable path ≡ able
        → create_folder path m ≡ made (m.entry path) (m.writable path) path m
    by_entry missing h true k = ground (arith, h, k)
    by_entry missing h false k = ground (arith, h, k)
    by_entry folder h able k = ground (arith, h, k)
    by_entry hidden h able k = ground (arith, h, k)
    by_entry unreadable h able k = ground (arith, h, k)
    by_entry (file s) h able k = ground (arith, h, k)
