-- ===== src/Services/Files/Backed/Steps.antt =====
-- What the single steps on the files and the blobs do to the invariant of `FileService`.
use rescs.Prelude.{
  if◌then◌else◌, true, Bool-cases, ==-refl, ◌+◌, inl, inr, truthy, ◌==◌, ◌≡◌, none, some, List,
  String, string_eq, nat_eq, ℕ, ◌≤◌, ◌≢◌, arith,
}
use rescs.Errors.{ok}
use rescs.Domain.{FileObjectData}
use rescs.Memory.Files.{file_item}
use rescs.World.{Runtime, World, object, blob_key_eq}
use rescs.Dict.{get, set, pop, contains}
use rescs.Dict.Laws.{get-set, get-pop, get-set_self}
use rescs.Memory.Store
use rescs.Memory.Store.{Store, is_taken, move}
use rescs.Memory.Store.Invariant.{create-IsIndexed, update-IsIndexed, delete-IsIndexed}
use rescs.Memory.Store.Effects.{index_key_keeps}
use rescs.Services.Files.Backed.{
  IsFresh, claimed, printed, IsBacked, IsPending, IsNew, Holds, Runtime, FileObjectData, String,
  ◌≡◌, List, none, World, ℕ, some, object, arith, string_eq, ◌≤◌, ◌≢◌,
}

-- What each method of the store does to the lookup of any id.
pub get-delete :
    (id j : String) (s : Store FileObjectData)
    → get j (Store.delete id s).1.items ≡ (if id == j then none else get j s.items)
unfolding Store.delete
get-delete id j s = ground (arith, get-pop id j s.items, string_eq.beq_iff id j)

get-create :
    (f : FileObjectData) (j : String) (s : Store FileObjectData)
    → (Store.create f none s).0 ≡ ok f
    → get j (Store.create f none s).1.items ≡ (if f.id == j then some f else get j s.items)
unfolding Store.create
get-create f j s done = ground (arith, get-set f.id j f s.items)

get-update :
    (g : FileObjectData) (j : String) (s : Store FileObjectData)
    → contains g.id s.items ≡ true
    → get j (Store.update g none s).1.items ≡ (if g.id == j then some g else get j s.items)
unfolding Store.update
get-update g j s there = ground (
  arith,
  get-set g.id j g s.items,
  index_key_keeps g (truthy g.idempotency_key)
      (record s { items = set g.id g s.items; namespace_keys = move none g.id s.namespace_keys }),
)

-- The world without the row and the blob of an id.
abbrev pub removed : String → World → World
removed id w = record w { files = (Store.delete id w.files).1; blobs = pop (object id) w.blobs }

-- The world without the blob of an id.
abbrev pub swept : String → World → World
swept id w = record w { blobs = pop (object id) w.blobs }

module _ (rt : Runtime) where
  pub removed-IsBacked : (id : String) (w : World) → IsBacked rt w → IsBacked rt (removed id w)
  removed-IsBacked id w h = record {
    indexed = delete-IsIndexed id w.files h.indexed;
    own_path = λ j f found. ground (arith, get-delete id j w.files, h.own_path j f);
    backed = λ j. elim (Bool-cases (id == j)) [
      | inl same ↦
          ground (arith, same, get-delete id j w.files, get-pop (object id) (object j) w.blobs)
      | inr differ ↦ ground (
        arith,
        differ,
        get-delete id j w.files,
        get-pop (object id) (object j) w.blobs,
        h.backed j,
      )
    ];
    unissued = λ n le. ground (arith, get-delete id (rt.uuid n) w.files, h.unissued n le);
  }

  pub removed-IsNew :
      (id : String) (w : World)
      → IsBacked rt w
      → ((n : ℕ) → w.uuids ≤ n → rt.uuid n ≢ id)
      → IsNew rt id (removed id w)
  removed-IsNew id w h ahead = record {
    sound = removed-IsBacked id w h;
    absent = ground (arith, get-delete id id w.files, ==-refl id);
    ahead = ahead;
  }

  -- Sweeping an id that has no row.
  pub IsPending-swept :
      (id : String) (bytes : List ℕ) (w : World)
      → IsPending rt id bytes w
      → IsNew rt id (swept id w)
  IsPending-swept id bytes w h = record {
    sound = record {
      indexed = h.indexed;
      own_path = h.own_path;
      backed = λ j. elim (Bool-cases (id == j)) [
        | inl same ↦
            ground (
              arith,
              same,
              string_eq.beq_iff id j,
              h.absent,
              get-pop (object id) (object j) w.blobs,
            )
        | inr differ ↦ ground (
          arith,
          differ,
          string_eq.beq_iff id j,
          get-pop (object id) (object j) w.blobs,
          h.others j,
        )
      ];
      unissued = h.unissued;
    };
    absent = h.absent;
    ahead = h.ahead;
  }

  pub IsNew-swept : (id : String) (w : World) → IsNew rt id w → IsBacked rt (swept id w)
  IsNew-swept id w h = record {
    indexed = h.sound.indexed;
    own_path = h.sound.own_path;
    backed = λ j. elim (Bool-cases (id == j)) [
      | inl same ↦
          ground
            (arith, same, string_eq.beq_iff id j, h.absent, get-pop (object id) (object j) w.blobs)
      | inr differ ↦
          ground (arith, differ, get-pop (object id) (object j) w.blobs, h.sound.backed j)
    ];
    unissued = h.sound.unissued;
  }

  pub made-IsNew :
      (w : World)
      → IsFresh rt
      → IsBacked rt w
      → IsNew rt (rt.uuid w.uuids) (record w { uuids = w.uuids + 1 })
  made-IsNew w fresh h = record {
    sound = record {
      indexed = h.indexed;
      own_path = h.own_path;
      backed = h.backed;
      unissued = λ n le. h.unissued n (omega arith);
    };
    absent = h.unissued w.uuids (omega arith);
    ahead = λ n le same. omega (arith, fresh n w.uuids same);
  }

  pub stored-IsPending :
      (id : String) (bytes : List ℕ) (w : World)
      → IsNew rt id w
      → IsPending rt id bytes (record w { blobs = set (object id) bytes w.blobs })
  stored-IsPending id bytes w h = record {
    indexed = h.sound.indexed;
    own_path = h.sound.own_path;
    others = λ j differ. ground (
      arith,
      string_eq.beq_iff id j,
      get-set (object id) (object j) bytes w.blobs,
      h.sound.backed j,
    );
    stored = get-set_self (object id) bytes w.blobs;
    absent = h.absent;
    unissued = h.sound.unissued;
    ahead = h.ahead;
  }

  -- A file whose row and blob are both there, under an id that is not made again.
  pub record IsPlaced (f : FileObjectData) (bytes : List ℕ) (w : World) : Type 0 where
    pub sound : IsBacked rt w
    pub there : get f.id w.files.items ≡ some f
    pub stored : get (object f.id) w.blobs ≡ some bytes
    pub ahead : (n : ℕ) → w.uuids ≤ n → rt.uuid n ≢ f.id

  pub created-IsPlaced :
      (f : FileObjectData) (bytes : List ℕ) (w : World)
      → f.storage_path ≡ f.id
      → printed rt (some bytes) ≡ claimed (some f)
      → IsPending rt f.id bytes w
      → (Store.create f none w.files).0 ≡ ok f
      → IsPlaced f bytes (record w { files = (Store.create f none w.files).1 })
  created-IsPlaced f bytes w path says h done = record {
    sound = record {
      indexed = create-IsIndexed f none w.files h.indexed;
      own_path = λ j g found.
          ground (arith, string_eq.beq_iff f.id j, get-create f j w.files done, h.own_path j g);
      backed = λ j. elim (Bool-cases (f.id == j)) [
        | inl same ↦
            ground (arith, same, string_eq.beq_iff f.id j, h.stored, get-create f j w.files done)
        | inr differ ↦
            ground
              (arith, differ, string_eq.beq_iff f.id j, h.others j, get-create f j w.files done)
      ];
      unissued = λ n le. ground (
        arith,
        get-create f (rt.uuid n) w.files done,
        string_eq.beq_iff f.id (rt.uuid n),
        h.ahead n le,
        h.unissued n le,
      );
    };
    there = ground (arith, get-create f f.id w.files done, ==-refl f.id);
    stored = h.stored;
    ahead = h.ahead;
  }

  -- Writing a file again, with the same id, path, digest and size.
  pub updated-IsBacked :
      (f g : FileObjectData) (w : World)
      → g.id ≡ f.id
      → g.storage_path ≡ f.storage_path
      → claimed (some g) ≡ claimed (some f)
      → Holds rt f w
      → IsBacked rt (record w { files = (Store.update g none w.files).1 })
  updated-IsBacked f g w id path says h =
      let there : contains g.id w.files.items ≡ true = ground (arith, h.there) in
      record {
        indexed = update-IsIndexed g none w.files h.sound.indexed;
        own_path = λ j x found. ground (
          arith,
          string_eq.beq_iff g.id j,
          get-update g j w.files there,
          h.there,
          h.sound.own_path f.id f,
          h.sound.own_path j x,
        );
        backed = λ j. elim (Bool-cases (g.id == j)) [
          | inl same ↦ ground (
            arith,
            same,
            string_eq.beq_iff g.id j,
            h.there,
            get-update g j w.files there,
            h.sound.backed f.id,
          )
          | inr differ ↦ ground (arith, differ, get-update g j w.files there, h.sound.backed j)
        ];
        unissued = λ n le. ground (
          arith,
          get-update g (rt.uuid n) w.files there,
          string_eq.beq_iff g.id (rt.uuid n),
          h.there,
          h.sound.unissued n le,
        );
      }
