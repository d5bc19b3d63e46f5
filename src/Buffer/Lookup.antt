-- ===== src/Buffer/Lookup.antt =====
-- buffer/mod.rs: what a lookup returns after a table was changed through `get_or_create_table`.
use iedb.Base.{
  String, ◌≡◌, ◌&&◌, Option, some, [], arith, option_get_or, if◌then◌else◌, str_eq, eq_iff,
}
use iedb.Base.Assoc.{get, alter, get-alter, get-nil}
use iedb.Table.{Table, new_table}
use iedb.Buffer.{Buffer, with_table, get_table}

-- A change reaches the table that it names, which is made if it is missing, and no other table of
-- any database.
pub get_table-with_table :
    (db table d t : String) (f : Table → Table) (b : Buffer)
    → get_table d t (with_table db table f b) ≡ (
        if str_eq db d && str_eq table t
        then some (f (option_get_or (new_table table) (get_table db table b)))
        else get_table d t b)
unfolding get_table with_table
get_table-with_table db table d t f b =
    let change = λ (found : Option Table). f (option_get_or (new_table table) found) in
    ground (
      arith,
      get-alter db d (λ tables. alter table change (option_get_or [] tables)) b.databases,
      get-alter table t change (option_get_or [] (get db b.databases)),
      eq_iff db d,
      eq_iff table t,
      get-nil {V = Table} t,
      get-nil {V = Table} table,
    )
