-- ===== src/Database/Contract/Accounts.antt =====
-- The users table under the writes of the contract.
use tiny_im.Prelude.{
  ◌≡◌, refl, ap, ◌∙◌, Bool, true, false, List, [], ◌∷◌, ◌++◌, map, Option, none, some, arith, Bytes,
  same, same_iff, if◌then◌else◌, select, select-append, exists,
}
use tiny_im.Database.Schema.{User}
use tiny_im.Database.Users.{has_id, rename}
use tiny_im.Database.Contract.{Account, rows_of, named}

abbrev pub some_row : List User → Bool
some_row [] = false
some_row (u ∷ us) = true

pub exists-select :
    (id : Bytes) (us : List User) → exists (has_id id) us ≡ some_row (select (has_id id) us)
exists-select id [] = refl
exists-select id (u ∷ us) = ground (arith, exists-select id us)

select-rename :
    (i name id : Bytes) (us : List User)
    → select (has_id id) (map (rename i name) us) ≡ map (rename i name) (select (has_id id) us)
unfolding rename
select-rename i name id [] = refl
select-rename i name id (u ∷ us) = ground (arith, select-rename i name id us)

rename-rows_of :
    (i name id : Bytes) (o : Option Account)
    → map (rename i name) (rows_of id o) ≡ rows_of id (if same i id then named name o else o)
unfolding rename
rename-rows_of i name id none = ground arith
rename-rows_of i name id (some a) = ground (arith, same_iff i id, same_iff id i)

pub select-renamed :
    (i name id : Bytes) (us : List User) (o : Option Account)
    → select (has_id id) us ≡ rows_of id o
    → select (has_id id) (map (rename i name) us)
      ≡ rows_of id (if same i id then named name o else o)
select-renamed i name id us o h =
    select-rename i name id us ∙ ap (map (rename i name)) h ∙ rename-rows_of i name id o

-- A row whose id was free is found by its id, and the other ids find what they did.
pub select-enrolled :
    (i id : Bytes) (us : List User) (a : Account) (o : Option Account)
    → select (has_id i) us ≡ []
    → select (has_id id) us ≡ rows_of id o
    → select (has_id id) (us ++ rows_of i (some a)) ≡ rows_of id (if same i id then some a else o)
select-enrolled i id us a o free h =
    select-append (has_id id) us (rows_of i (some a)) ∙ ground (arith, same_iff i id)
