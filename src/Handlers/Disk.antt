-- ===== src/Handlers/Disk.antt =====
-- How the handlers of internal/handler use the data directory, and how they answer.
pub mod Effects
use dist_task_queue.Prelude.{Bool, true, false, Option, none, some, List, [], ◌∷◌, ◌++◌}
use dist_task_queue.Prelude.Tests.{Bytes}
use dist_task_queue.Services.{Env}
use dist_task_queue.World.{World, M, Result, ok, err, Error, text}
use dist_task_queue.Store.Types.{Uuid}
use dist_task_queue.Handlers.Words.{
  mime_dir, attachments_dir, pdf_dir, meta_dir, eml_suffix, pdf_suffix, json_suffix,
}

abbrev pub done_or_error : Bool → Result (Unit {0})
done_or_error true = ok tt
done_or_error false = err (text [])

module _ {e : Env} where
  abbrev pub or_text_error : Option Bytes → World e → Result Bytes × World e
  or_text_error none w = (err (text []), w)
  or_text_error (some s) w = (ok s, w)

  -- os.ReadFile
  unfoldable pub read_file : Bytes → List Bytes → M e Bytes
  read_file root path w = or_text_error (e.disk.read root path w.disk) w

  -- os.MkdirAll
  unfoldable pub make_dirs : Bytes → List Bytes → M e (Unit {0})
  make_dirs root path w = (
    done_or_error (e.disk.mkdir_all root path w.disk).0,
    record w { disk = (e.disk.mkdir_all root path w.disk).1 },
  )

  -- os.WriteFile
  unfoldable pub write_file : Bytes → List Bytes → Bytes → M e (Unit {0})
  write_file root path content w = (
    done_or_error (e.disk.write root path content w.disk).0,
    record w { disk = (e.disk.write root path content w.disk).1 },
  )

  -- What a handler returns: the next stage, or "" and an error, by the text that `words` has for it.
  abbrev pub answer : (Error → Bytes) → Result Bytes × World e → (Bytes × Option Bytes) × World e
  answer words (ok next, w) = ((next, none), w)
  answer words (err x, w) = (([], some (words x)), w)

  -- A pointer field of a job that has to be there.
  abbrev pub required {ℓ} : {A : Type ℓ} → Option A → (A → M e Bytes) → M e Bytes
  required none f w = (err (text []), w)
  required (some a) f w = f a w

-- The files of a job under the data directory.
module _ (e : Env) (id : Uuid) where
  abbrev pub mime_path : List Bytes
  mime_path = mime_dir ∷ (e.format_uuid id ++ eml_suffix) ∷ []

  abbrev pub pdf_path : List Bytes
  pdf_path = pdf_dir ∷ (e.format_uuid id ++ pdf_suffix) ∷ []

  abbrev pub meta_path : List Bytes
  meta_path = meta_dir ∷ (e.format_uuid id ++ json_suffix) ∷ []

  abbrev pub attachments_path : List Bytes
  attachments_path = attachments_dir ∷ e.format_uuid id ∷ []

  abbrev pub attachment_path : Bytes → List Bytes
  attachment_path name = attachments_dir ∷ e.format_uuid id ∷ name ∷ []
