-- ===== src/Shell/Reference.antt =====
-- The interface of uthash.h filled by a list of entries, the newest first.
use operating_system_basics.Base.{Option, none, some, List, [], ◌∷◌, if◌then◌else◌}
use operating_system_basics.Shell.{Word, eq_word, HashTable}

abbrev pub Entries : Type 0
Entries = List (Word × Word)

abbrev pub get : Word → Entries → Option Word
get k [] = none
get k ((j, v) ∷ t) = if eq_word j k then some v else get k t

abbrev pub store : Word → Word → Entries → Entries
store k w [] = []
store k w ((j, v) ∷ t) = (j, if eq_word j k then w else v) ∷ store k w t

abbrev pub delete : Word → Entries → Entries
delete k [] = []
delete k ((j, v) ∷ t) = let rest = delete k t in if eq_word j k then rest else (j, v) ∷ rest

abbrev pub reference : HashTable
reference = record {
  Table = Entries;
  hash_find = get;
  hash_add = λ k v t. (k, v) ∷ t;
  hash_store = store;
  hash_del = delete;
}
