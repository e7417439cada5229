-- ===== src/Shell/Table.antt =====
-- xssh.h: the variables of the shell.
use operating_system_basics.Base.{
  Bool, true, false, Option, none, some, ◌==◌, not, if◌then◌else◌, drop, set,
}
use operating_system_basics.Shell.{Word, HashTable}

module _ (hash : HashTable) where
  unfoldable pub find : Word → hash.Table → Option Word
  find key t = hash.hash_find key t

  -- `add` puts the entry into the table in each case, also the one that it has found there.
  unfoldable pub add_entry : Word → Word → Option Word → hash.Table → hash.Table
  add_entry key value none t = hash.hash_add key value t
  add_entry key value (some old) t = hash.hash_add key value (hash.hash_store key value t)

  unfoldable pub add : Word → Word → hash.Table → hash.Table
  add key value t = add_entry key value (find key t) t

  -- The result is whether it is SUCCESS.
  unfoldable pub remove_key : Word → hash.Table → Bool × hash.Table
  remove_key key t = elim (find key t) [ none ↦ (false, t) | some v ↦ (true, hash.hash_del key t) ]

  -- `getVal`: its test assigns the first character.
  unfoldable pub get_val : Word → hash.Table → Option Word
  get_val variable t =
      let assigned = set variable 0 b'$' in
      if not (b'$' == 0) then find (drop 1 assigned) t else some assigned
