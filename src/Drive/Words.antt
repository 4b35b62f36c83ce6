-- ===== src/Drive/Words.antt =====
-- The words of internal/drive.
use dist_task_queue.Prelude.{[], ◌∷◌}
use dist_task_queue.Prelude.Tests.{Bytes}

-- "application/vnd.google-apps.folder"
abbrev pub folder_mime : Bytes
folder_mime =
    b'a' ∷ b'p' ∷ b'p' ∷ b'l' ∷ b'i' ∷ b'c' ∷ b'a' ∷ b't' ∷ b'i' ∷ b'o' ∷ b'n' ∷ b'/' ∷ b'v' ∷ b'n'
    ∷ b'd' ∷ b'.' ∷ b'g' ∷ b'o' ∷ b'o' ∷ b'g' ∷ b'l' ∷ b'e' ∷ b'-' ∷ b'a' ∷ b'p' ∷ b'p' ∷ b's'
    ∷ b'.' ∷ b'f' ∷ b'o' ∷ b'l' ∷ b'd' ∷ b'e' ∷ b'r' ∷ []

-- "name = '"
abbrev pub name_is : Bytes
name_is = b'n' ∷ b'a' ∷ b'm' ∷ b'e' ∷ b' ' ∷ b'=' ∷ b' ' ∷ 39 ∷ []

-- "' and '"
abbrev pub and_parent : Bytes
and_parent = 39 ∷ b' ' ∷ b'a' ∷ b'n' ∷ b'd' ∷ b' ' ∷ 39 ∷ []

-- "' in parents and "
abbrev pub in_parents : Bytes
in_parents =
    39 ∷ b' ' ∷ b'i' ∷ b'n' ∷ b' ' ∷ b'p' ∷ b'a' ∷ b'r' ∷ b'e' ∷ b'n' ∷ b't' ∷ b's' ∷ b' ' ∷ b'a'
    ∷ b'n' ∷ b'd' ∷ b' ' ∷ []

-- "mimeType = '"
abbrev pub mime_is : Bytes
mime_is = b'm' ∷ b'i' ∷ b'm' ∷ b'e' ∷ b'T' ∷ b'y' ∷ b'p' ∷ b'e' ∷ b' ' ∷ b'=' ∷ b' ' ∷ 39 ∷ []

-- "' and trashed = false"
abbrev pub and_not_trashed : Bytes
and_not_trashed =
    39 ∷ b' ' ∷ b'a' ∷ b'n' ∷ b'd' ∷ b' ' ∷ b't' ∷ b'r' ∷ b'a' ∷ b's' ∷ b'h' ∷ b'e' ∷ b'd' ∷ b' '
    ∷ b'=' ∷ b' ' ∷ b'f' ∷ b'a' ∷ b'l' ∷ b's' ∷ b'e' ∷ []

-- "trashed = false"
abbrev pub not_trashed : Bytes
not_trashed =
    b't' ∷ b'r' ∷ b'a' ∷ b's' ∷ b'h' ∷ b'e' ∷ b'd' ∷ b' ' ∷ b'=' ∷ b' ' ∷ b'f' ∷ b'a' ∷ b'l' ∷ b's'
    ∷ b'e' ∷ []

-- "drive_folder_cache:"
abbrev pub cache_prefix : Bytes
cache_prefix =
    b'd' ∷ b'r' ∷ b'i' ∷ b'v' ∷ b'e' ∷ b'_' ∷ b'f' ∷ b'o' ∷ b'l' ∷ b'd' ∷ b'e' ∷ b'r' ∷ b'_' ∷ b'c'
    ∷ b'a' ∷ b'c' ∷ b'h' ∷ b'e' ∷ b':' ∷ []
