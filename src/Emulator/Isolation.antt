-- ===== src/Emulator/Isolation.antt =====
-- What the handlers of `MultiItemServer` in integration/run.py leave alone: the transfers of other
-- clients, the other tables and the memory.
use mathlib.Core.Logic.{if_neg}
use lean_s.Prelude.{
  ℕ, ◌≡◌, ◌≢◌, refl, ◌∙◌, not, ◌||◌, Option, none, some, List, [], ◌∷◌, ltb, ◌==◌, length, slice,
  Bool-cases, inl, inr,
}
use lean_s.Error.{Result, ok, err}
use lean_s.Bytes.{Bytes, byte_at, equal}
use lean_s.Value.Integer.{ℤ}
use lean_s.Emulator.Server.{Snap7, State, UploadContext, store, discard}
use lean_s.Emulator.Szl.{
  keep, next_fragment, first_fragment, open_list, handle_szl, handle_list_blocks_of_type,
}
use lean_s.Emulator.Upload.{
  int, begin_upload, find_block, numbered_upload, handle_start_upload, next_chunk, handle_upload,
}

-- Two states agree but for the transfers of one client.
pub record Apart {Memory Client : Type 0} (other : Client) (s t : State Memory Client)
    : Type 0 where
  pub memory : t.memory ≡ s.memory
  pub szl : t.szl_fragments other ≡ s.szl_fragments other
  pub blocks : t.block_fragments other ≡ s.block_fragments other
  pub uploads : t.uploads other ≡ s.uploads other

module _ (server : Snap7) {Client : Type 0} (same : Discrete Client) {client other : Client}
    (apart : other ≢ client) where
  open server use {
    Parsed, Params, Memory, params_sequence, content, cpu_state, raw_parameters, db_block,
  }

  store-other :
      {V : Type 0} (value : V) (table : Client → Option V)
      → store same client value table other ≡ table other
  unfolding store
  store-other value table = if_neg (same other client) apart (some value) (table other)

  keep-other :
      (fs : List Bytes) (table : Client → Option (List Bytes))
      → keep server same client fs table other ≡ table other
  unfolding keep discard
  keep-other [] table = if_neg (same other client) apart none (table other)
  keep-other (f ∷ fs) table = store-other (f ∷ fs) table

  next_fragment-other :
      (request : Parsed) (number group subfunction : ℕ) (kept : Option (List Bytes))
      (table : Client → Option (List Bytes))
      → (next_fragment server same request number group subfunction client kept table).1 other
        ≡ table other
  unfolding next_fragment
  next_fragment-other request number group subfunction none table = refl
  next_fragment-other request number group subfunction (some []) table = refl
  next_fragment-other request number group subfunction (some (f ∷ fs)) table = keep-other fs table

  first_fragment-other :
      (request : Parsed) (fs : List Bytes) (table : Client → Option (List Bytes))
      → (first_fragment server same request client fs table).1 other ≡ table other
  unfolding first_fragment
  first_fragment-other request [] table = refl
  first_fragment-other request (f ∷ []) table = refl
  first_fragment-other request (f ∷ g ∷ fs) table = store-other (g ∷ fs) table

  open_list-other :
      (request : Parsed) (id index : ℕ) (found : Result (Option Bytes))
      (table : Client → Option (List Bytes))
      → (open_list server same request client id index found table).1 other ≡ table other
  unfolding open_list
  open_list-other request id index (err raised) table = refl
  open_list-other request id index (ok none) table = refl
  open_list-other request id index (ok (some szl_data)) table = first_fragment-other request _ table

  pub handle_szl-Apart :
      (s : State Memory Client) (request : Parsed) (params : Params)
      → Apart other s (handle_szl server same s request params client).1
  unfolding handle_szl
  handle_szl-Apart s request params = elim (Bool-cases (params_sequence params == 0)) [
    | inl e ↦ elim (Bool-cases (ltb (length (content request)) 4)) [
      | inl f ↦ rw (e, f) (record { memory = refl; szl = refl; blocks = refl; uploads = refl })
      | inr f ↦
          rw (e, f)
            (record {
              memory = refl;
              szl = open_list-other request _ _ _ s.szl_fragments;
              blocks = refl;
              uploads = refl;
            })
    ]
    | inr e ↦ rw e (record {
      memory = refl;
      szl = next_fragment-other request _ _ _ _ s.szl_fragments;
      blocks = refl;
      uploads = refl;
    })
  ]

  pub handle_list_blocks_of_type-Apart :
      (s : State Memory Client) (request : Parsed) (params : Params)
      → Apart other s (handle_list_blocks_of_type server same s request params client).1
  unfolding handle_list_blocks_of_type
  handle_list_blocks_of_type-Apart s request params =
      elim (Bool-cases (params_sequence params == 0)) [
        | inl e ↦ elim (Bool-cases (equal (content request) (0x30 ∷ 0x41 ∷ []))) [
          | inl f ↦
              rw (e, f)
                (record {
                  memory = refl;
                  szl = refl;
                  blocks = store-other ((0 ∷ 0 ∷ []) ∷ []) s.block_fragments;
                  uploads = refl;
                })
          | inr f ↦ rw (e, f) (record { memory = refl; szl = refl; blocks = refl; uploads = refl })
        ]
        | inr e ↦ rw e (record {
          memory = refl;
          szl = refl;
          blocks = next_fragment-other request _ _ _ _ s.block_fragments;
          uploads = refl;
        })
      ]

  begin_upload-Apart :
      (s : State Memory Client) (request : Parsed) (mc7 : Bytes) (compact : Result Bytes)
      → Apart other s (begin_upload server same s request client mc7 compact).1
  unfolding begin_upload
  begin_upload-Apart s request mc7 (err raised) = record {
    memory = refl;
    szl = refl;
    blocks = refl;
    uploads = refl;
  }
  begin_upload-Apart s request mc7 (ok compact) = record {
    memory = refl;
    szl = refl;
    blocks = refl;
    uploads = store-other _ s.uploads;
  }

  find_block-Apart :
      (s : State Memory Client) (request : Parsed) (number : ℤ) (found : Option Bytes)
      → Apart other s (find_block server same s request client number found).1
  unfolding find_block
  find_block-Apart s request number none = record {
    memory = refl;
    szl = refl;
    blocks = refl;
    uploads = refl;
  }
  find_block-Apart s request number (some mc7) = begin_upload-Apart s request mc7 _

  numbered_upload-Apart :
      (s : State Memory Client) (request : Parsed) (number : Result ℤ)
      → Apart other s (numbered_upload server same s request client number).1
  unfolding numbered_upload
  numbered_upload-Apart s request (err raised) = record {
    memory = refl;
    szl = refl;
    blocks = refl;
    uploads = refl;
  }
  numbered_upload-Apart s request (ok number) =
      elim (Bool-cases (byte_at (raw_parameters request) 11 == 0x41)) [
        | inl e ↦ rw e (find_block-Apart s request number _)
        | inr e ↦ rw e (record { memory = refl; szl = refl; blocks = refl; uploads = refl })
      ]

  pub handle_start_upload-Apart :
      (s : State Memory Client) (request : Parsed)
      → Apart other s (handle_start_upload server same s request client).1
  unfolding handle_start_upload
  handle_start_upload-Apart s request =
      let parameters = raw_parameters request in
      elim (Bool-cases (
        not (length parameters == 18)
        || not (equal (slice 9 12 parameters) (0x5f ∷ 0x30 ∷ 0x41 ∷ [])))) [
          | inl e ↦ rw e (record { memory = refl; szl = refl; blocks = refl; uploads = refl })
          | inr e ↦ rw e (numbered_upload-Apart s request (int (slice 12 17 parameters)))
        ]

  next_chunk-other :
      (request : Parsed) (context : Option UploadContext) (table : Client → Option UploadContext)
      → (next_chunk server same request client context table).1 other ≡ table other
  unfolding next_chunk
  next_chunk-other request none table = refl
  next_chunk-other request (some context) table = store-other _ table

  pub handle_upload-Apart :
      (s : State Memory Client) (request : Parsed)
      → Apart other s (handle_upload server same s request client).1
  unfolding handle_upload
  handle_upload-Apart s request = record {
    memory = refl;
    szl = refl;
    blocks = refl;
    uploads = next_chunk-other request _ s.uploads;
  }

module _ (server : Snap7) {Client : Type 0} (same : Discrete Client) where
  open server use {Parsed, Params, Memory}

  -- One request of a client, whichever of the transfers it is about.
  pub data Step (client : Client) : State Memory Client → State Memory Client → Type 0 where
    szl :
        (s : State Memory Client) (request : Parsed) (params : Params)
        → Step client s (handle_szl server same s request params client).1
    list_blocks :
        (s : State Memory Client) (request : Parsed) (params : Params)
        → Step client s (handle_list_blocks_of_type server same s request params client).1
    start_upload :
        (s : State Memory Client) (request : Parsed)
        → Step client s (handle_start_upload server same s request client).1
    upload :
        (s : State Memory Client) (request : Parsed)
        → Step client s (handle_upload server same s request client).1

  -- Requests of any other clients, in any order.
  pub data Others (client : Client) (s : State Memory Client) : State Memory Client → Type 0 where
    here : Others client s s
    next :
        {t u : State Memory Client} {other : Client}
        → Others client s t
        → client ≢ other
        → Step other t u
        → Others client s u

  Step-Apart :
      {client other : Client} {s t : State Memory Client}
      → client ≢ other
      → Step other s t
      → Apart client s t
  Step-Apart apart (szl s request params) = handle_szl-Apart server same apart s request params
  Step-Apart apart (list_blocks s request params) =
      handle_list_blocks_of_type-Apart server same apart s request params
  Step-Apart apart (start_upload s request) = handle_start_upload-Apart server same apart s request
  Step-Apart apart (upload s request) = handle_upload-Apart server same apart s request

  -- Whatever lists and uploads other clients ask for between two requests of a client, and in any
  -- order, the memory is the same, and so are the fragments and the upload that the client has.
  pub Others-Apart :
      {client : Client} {s t : State Memory Client} → Others client s t → Apart client s t
  Others-Apart here = record { memory = refl; szl = refl; blocks = refl; uploads = refl }
  Others-Apart (next before apart step) =
      let earlier = Others-Apart before in
      let last = Step-Apart apart step in
      record {
        memory = last.memory ∙ earlier.memory;
        szl = last.szl ∙ earlier.szl;
        blocks = last.blocks ∙ earlier.blocks;
        uploads = last.uploads ∙ earlier.uploads;
      }
