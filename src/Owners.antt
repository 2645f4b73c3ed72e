-- ===== src/Owners.antt =====
-- The names and ids of owners of src/names.c: `uid_to_uname`, `gid_to_gname`, `uname_to_uid` and
-- `gname_to_gid`, with the last answers that they keep. The databases of users and groups are
-- parameters. An empty name is the answer where there is none.
pub mod Cached
mod Runs
use tar.Base.{
  ℕ, Bool, true, false, not, ◌&&◌, ◌||◌, Option, none, some, List, [], ◌∷◌, get_or, ◌==◌,
  if◌then◌else◌,
}
use tar.Base.Text.{Bytes, streq}

-- `getpwuid` and `getpwnam`, or the functions for groups: the name of an id, and the id of a name
-- with the name that is kept for it.
pub record Database : Type 0 where
  pub by_id : ℕ → Option Bytes
  pub by_name : Bytes → Option (ℕ × Bytes)

-- `getgrnam`, behind which the name that was asked for is kept.
abbrev pub keep_asked : Bytes → Option ℕ → Option (ℕ × Bytes)
keep_asked gname none = none
keep_asked gname (some gid) = some (gid, gname)

abbrev pub groups : (ℕ → Option Bytes) → (Bytes → Option ℕ) → Database
groups getgrgid getgrnam = record {
  by_id = getgrgid;
  by_name = λ gname. keep_asked gname (getgrnam gname);
}

-- The static variables for users, or for groups.
pub record Cache : Type 0 where
  pub cached_name : Option Bytes
  pub cached_id : ℕ
  pub cached_no_such_name : Option Bytes
  pub cached_no_such_id : ℕ

abbrev pub empty_cache : Cache
empty_cache = record {
  cached_name = none;
  cached_id = 0;
  cached_no_such_name = none;
  cached_no_such_id = 0;
}

abbrev pub id_found : ℕ → Cache → Option Bytes → Bytes × Cache
id_found id c none = ([], record c { cached_no_such_id = id })
id_found id c (some name) = (name, record c { cached_id = id; cached_name = some name })

abbrev pub cached_name_or :
    Option Bytes → Bool → (Bytes → Bytes × Cache) → Bytes × Cache → Bytes × Cache
cached_name_or none same hit miss = miss
cached_name_or (some name) same hit miss = if same then hit name else miss

-- `uid_to_uname`, and `gid_to_gname`.
unfoldable pub id_to_name : Database → ℕ → Cache → Bytes × Cache
id_to_name d id c =
    if not (id == 0) && id == c.cached_no_such_id
    then ([], c)
    else cached_name_or c.cached_name (id == c.cached_id) (λ name. (name, c))
        (id_found id c (d.by_id id))

-- Whether a kept name is the name.
abbrev pub is_kept : Bytes → Option Bytes → Bool
is_kept name none = false
is_kept name (some kept) = streq name kept

-- The same with the first bytes compared first.
abbrev pub is_kept_first : Bytes → Option Bytes → Bool
is_kept_first name none = false
is_kept_first name (some kept) = get_or name 0 0 == get_or kept 0 0 && streq name kept

abbrev pub name_found : Bytes → Cache → Option (ℕ × Bytes) → Option ℕ × Cache
name_found name c none = (none, record c { cached_no_such_name = some name })
name_found name c (some (id, kept)) =
    (some id, record c { cached_id = id; cached_name = some kept })

-- `uname_to_uid`, and `gname_to_gid`.
unfoldable pub name_to_id : Database → Bytes → Cache → Option ℕ × Cache
name_to_id d name c =
    if is_kept name c.cached_no_such_name
    then (none, c)
    else if is_kept_first name c.cached_name
    then (some c.cached_id, c)
    else name_found name c (d.by_name name)

-- Calls and their answers, in their order.
pub data Call : Type 0 where
  ask_name : ℕ → Call
  ask_id : Bytes → Call

pub data Reply : Type 0 where
  reply_name : Bytes → Reply
  reply_id : Option ℕ → Reply

abbrev pub call : Database → Call → Cache → Reply × Cache
call d (ask_name id) c = let r = id_to_name d id c in (reply_name r.0, r.1)
call d (ask_id name) c = let r = name_to_id d name c in (reply_id r.0, r.1)

unfoldable pub calls : Database → List Call → Cache → List Reply
calls d [] c = []
calls d (q ∷ qs) c = let r = call d q c in r.0 ∷ calls d qs r.1
