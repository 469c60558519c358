-- ===== src/User.antt =====
-- The user library in server/ulibc, of which a program sees its own objects and, by `_set_errno`, the error
-- number of its thread.
pub mod ThreadAttr
pub mod MutexAttr
pub mod Exit
pub mod PathName
use l4ertl.Base.{ℕ, Ptr, null, Option, some, none, ◌==◌, ◌||◌, if◌then◌else◌, update}
use l4ertl.Kernel.{success, failure, einval}

-- Objects of one kind, by their address, and the error number.
pub record Objects (A : Type 0) : Type 0 where
  pub object : Ptr → A
  pub errno : ℕ

-- What is returned, what is stored through a pointer, if anything, and the objects.
pub record Reply (A V : Type 0) : Type 0 where
  pub returned : ℕ
  pub stored : Option V
  pub objects : Objects A

-- `_set_errno (EINVAL); return -1`
abbrev pub refuse_null : {A V : Type 0} → Objects A → Reply A V
refuse_null o = record {
  returned = failure;
  stored = none;
  objects = record { object = o.object; errno = einval };
}

-- The calls that write an object, or return -1 and EINVAL for NULL.
abbrev pub write_object : {A : Type 0} → Ptr → (A → A) → Objects A → Reply A ℕ
write_object p f o = if p == null then refuse_null o else record {
  returned = success;
  stored = none;
  objects = record { object = update o.object p (f (o.object p)); errno = o.errno };
}

-- The calls that store a field of an object at `out`, or return -1 and EINVAL for NULL.
abbrev pub read_object : {A V : Type 0} → Ptr → Ptr → (A → V) → Objects A → Reply A V
read_object p out f o =
    if p == null || out == null
    then refuse_null o
    else record { returned = success; stored = some (f (o.object p)); objects = o }
