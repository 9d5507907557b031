-- ===== src/Bot/Registry.antt =====
-- discord-bot/thread_registry.py: ThreadRegistry. Ids are their texts, the clock's text is an
-- argument, and the file holds what json.dump wrote of the entries.
use local_ai_server.Prelude.{
  Bool, Bool-cases, List, Option, String, [], ap, if◌then◌else◌, inl, inr, none, number_Eq, refl,
  some, text_Eq, true, ◌==◌, ◌∷◌, ◌≡◌,
}
use local_ai_server.Prelude.Dict.{Dict, adjust, has, insert, lookup, remove}

-- Entries written before there were kinds have none.
pub record ThreadEntry : Type 0 where
  pub model : String
  pub name : String
  pub created_at : String
  pub status : String
  pub kind : Option String

-- The file: absent, not to be read, or with entries.
pub data RegistryFile : Type 0 where
  absent : RegistryFile
  broken : RegistryFile
  saved : Dict String ThreadEntry → RegistryFile

pub record ThreadRegistry : Type 0 where
  pub entries : Dict String ThreadEntry
  pub file : RegistryFile

abbrev pub read_entries : RegistryFile → Dict String ThreadEntry
read_entries absent = []
read_entries broken = []
read_entries (saved entries) = entries

-- load
unfoldable pub load_registry : RegistryFile → ThreadRegistry
load_registry file = record { entries = read_entries file; file = file }

-- save, which only logs where the file cannot be written
unfoldable pub save_registry : Bool → ThreadRegistry → ThreadRegistry
save_registry writable r = if writable then record r { file = saved r.entries } else r

-- register
unfoldable pub register_thread :
    Bool → String → String → String → String → String → ThreadRegistry → ThreadRegistry
unfolding insert save_registry
register_thread writable now id model name kind r = save_registry writable (record r {
  entries =
      insert id
        (record {
          model = model;
          name = name;
          created_at = now;
          status = "active";
          kind = some kind;
        })
        r.entries;
})

abbrev pub kind_of : Option ThreadEntry → String
kind_of none = "chat"
kind_of (some e) = elim e.kind [ none ↦ "chat" | some kind ↦ kind ]

unfoldable pub get_kind : String → ThreadRegistry → String
unfolding lookup
get_kind id r = kind_of (lookup id r.entries)

-- update_status, which does nothing for an unknown thread
unfoldable pub update_status : Bool → String → String → ThreadRegistry → ThreadRegistry
unfolding has adjust save_registry
update_status writable id status r =
    if has id r.entries
    then save_registry writable
        (record r { entries = adjust id (λ e. record e { status = status }) r.entries })
    else r

-- remove
unfoldable pub unregister_thread : Bool → String → ThreadRegistry → ThreadRegistry
unfolding has remove save_registry
unregister_thread writable id r =
    if has id r.entries
    then save_registry writable (record r { entries = remove id r.entries })
    else r

abbrev pub model_of : Option ThreadEntry → Option String
model_of none = none
model_of (some e) = if e.status == "deleted" then none else some e.model

unfoldable pub get_model : String → ThreadRegistry → Option String
unfolding lookup
get_model id r = model_of (lookup id r.entries)

-- A call that changes the registry.
pub data RegistryCall : Type 0 where
  registering : String → String → String → String → String → RegistryCall
  setting_status : String → String → RegistryCall
  removing : String → RegistryCall

unfoldable pub call_registry : RegistryCall → ThreadRegistry → ThreadRegistry
unfolding register_thread update_status unregister_thread
call_registry (registering now id model name kind) r = register_thread true now id model name kind r
call_registry (setting_status id status) r = update_status true id status r
call_registry (removing id) r = unregister_thread true id r

unfoldable pub call_all : List RegistryCall → ThreadRegistry → ThreadRegistry
unfolding call_registry
call_all [] r = r
call_all (c ∷ cs) r = call_all cs (call_registry c r)

abbrev IsSaved : ThreadRegistry → Type 0
IsSaved r = read_entries r.file ≡ r.entries

call_registry-IsSaved :
    (c : RegistryCall) (r : ThreadRegistry) → IsSaved r → IsSaved (call_registry c r)
unfolding call_registry
call_registry-IsSaved (registering now id model name kind) r h = refl
call_registry-IsSaved (setting_status id status) r h = elim (Bool-cases (has id r.entries)) [
  | inl e ↦ rw (e, update_status) refl
  | inr e ↦ rw (e, update_status) h
]
call_registry-IsSaved (removing id) r h = elim (Bool-cases (has id r.entries)) [
  | inl e ↦ rw (e, unregister_thread) refl
  | inr e ↦ rw (e, unregister_thread) h
]

call_all-IsSaved :
    (cs : List RegistryCall) (r : ThreadRegistry) → IsSaved r → IsSaved (call_all cs r)
unfolding call_all
call_all-IsSaved [] r h = h
call_all-IsSaved (c ∷ cs) r h =
    call_all-IsSaved cs (call_registry c r) (call_registry-IsSaved c r h)

-- While the file can be written, a restart after any calls finds every thread with the model and
-- the kind that it had.
pub load_registry-call_all :
    (file : RegistryFile) (cs : List RegistryCall) (id : String)
    → (get_model id (load_registry (call_all cs (load_registry file)).file)
        ≡ get_model id (call_all cs (load_registry file)))
      × (get_kind id (load_registry (call_all cs (load_registry file)).file)
          ≡ get_kind id (call_all cs (load_registry file)))
unfolding get_model get_kind load_registry
load_registry-call_all file cs id =
    let same = call_all-IsSaved cs (record { entries = read_entries file; file = file }) refl in
    (ap (λ d. model_of (lookup id d)) same, ap (λ d. kind_of (lookup id d)) same)
