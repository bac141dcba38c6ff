-- ===== src/Job/Roundtrip.antt =====
-- A job that is written as a message and read back.
use Prim.Native.String.{◌++◌}
use nixsrv.Prelude.{
  ok, ◌==◌, pos, ap, ◌≢◌, ◌∙◌, ◌≡◌, refl, true, false, some, String, [], ◌∷◌, fits_int, arith,
}
use nixsrv.Json.{Json}
use nixsrv.Double.{Double, get_double}
use nixsrv.Util.Split.{split}
use nixsrv.Message.{
  find, find_path, set_path, get_meta, get_string, get_int, get_bool, get_raw_value, set_meta, set,
  to_string,
}
use nixsrv.Message.Fields.{
  find-object, get_string_found, get_int_found, get_bool_found, get_raw_value_found, parse_found,
}
use nixsrv.Table
use nixsrv.Table.{Table}
use nixsrv.Status.{StatusCode, code}
use nixsrv.Incoming.Answers.{with_code}
use nixsrv.Job.{Job, from_message, to_message, job_to_string, deserialize}

module _ {V : Type 0} ⦃J : Json V⦄ where
  open J use {is_object, member, insert, erase}

  -- An object whose members are those of the list, the last one written first.
  abbrev pub Holds : V → Table V → Type 0
  Holds v l = (is_object v ≡ true) × ((j : String) → member v j ≡ Table.find j l)

  Holds-insert :
      (v : V) (l : Table V) (k : String) (x : V) → Holds v l → Holds (insert v k x) ((k, x) ∷ l)
  unfolding Table.find
  Holds-insert v l k x (o, m) =
      (J.insert-object v k x (rw o), λ j. rw (J.member-insert v k j x (rw o), m j))

  Holds-erase_insert :
      (v : V) (l : Table V) (k : String) (x : V)
      → Holds v l
      → Holds (insert (erase v k) k x) ((k, x) ∷ l)
  unfolding Table.find
  Holds-erase_insert v l k x (o, m) =
      let o' : is_object (erase v k) ≡ true = rw (J.erase-object v k) o in
      (
        J.insert-object (erase v k) k x (rw o'),
        λ j.
            rw (J.member-insert (erase v k) k j x (rw o'), J.member-erase v k j (rw o), m j)
              (ground arith),
      )

  pub Holds-find :
      (v : V) (l : Table V) (k : String)
      → Holds v l
      → split k "." ≡ k ∷ []
      → find k v ≡ Table.find k l
  Holds-find v l k (o, m) e =
      rw (find-object k v o, e) (unfold find_path in rw (o, m k) (ground arith))

  set_meta-Holds :
      (v : V) (l : Table V) (k : String) (x : V)
      → Holds v l
      → (v' : V) × (set_meta k x v ≡ ok v') × Holds v' (("@" ++ k, x) ∷ l)
  unfolding set_meta
  set_meta-Holds v l k x h = (insert v ("@" ++ k) x, rw h.0 refl, Holds-insert v l ("@" ++ k) x h)

  set-Holds :
      (v : V) (l : Table V) (k : String) (x : V)
      → Holds v l
      → split k "." ≡ k ∷ []
      → (v' : V) × (set k x v ≡ ok v') × Holds v' ((k, x) ∷ l)
  unfolding set set_path
  set-Holds v l k x h e = (insert (erase v k) k x, rw (e, h.0) refl, Holds-erase_insert v l k x h)

  -- What the JSON library does with the text of a message: the text is not empty, and it reads back
  -- as the message.
  abbrev pub IsReadBack : V → Type 0
  IsReadBack root = (J.fast_write root ≢ "") × (J.reader_parse (J.fast_write root) ≡ some root)

module _ {D V : Type 0} ⦃J : Json V⦄ ⦃F : Double D V⦄ where
  get_double_found :
      (k : String) (x d : D) (root : V)
      → find k root ≡ some (F.from_double x)
      → get_double k d root ≡ x
  unfolding get_double
  get_double_found k x d root e =
      rw (e, get_double, F.from_double-double x) (F.as_double-from_double x)

  -- The fields of the message that a job is written as, the last one written first.
  abbrev pub written : Job D V → Table V
  written job =
      ("parameters", job.parameters)
      ∷ ("completed", J.from_bool job.completed)
      ∷ ("progress", F.from_double job.progress)
      ∷ ("ctime", J.from_int job.ctime)
      ∷ ("action", J.from_string job.action)
      ∷ ("module", J.from_string job.module_name)
      ∷ ("@api_key", J.from_string job.api_key)
      ∷ ("@origin_node", J.from_string job.origin_node)
      ∷ ("@job_id", J.from_string job.id)
      ∷ []

  pub to_message-Holds :
      (job : Job D V) → (root : V) × (to_message job ≡ ok root) × Holds root (written job)
  to_message-Holds job =
      let (m1, e1, h1) =
        set_meta-Holds J.object_value [] "job_id" (J.from_string job.id)
          (J.object_value-object, unfold Table.find in J.object_value-member) in
      let (m2, e2, h2) = set_meta-Holds m1 _ "origin_node" (J.from_string job.origin_node) h1 in
      let (m3, e3, h3) = set_meta-Holds m2 _ "api_key" (J.from_string job.api_key) h2 in
      let (m4, e4, h4) =
        set-Holds m3 _ "module" (J.from_string job.module_name) h3 (unfold split in refl) in
      let (m5, e5, h5) =
        set-Holds m4 _ "action" (J.from_string job.action) h4 (unfold split in refl) in
      let (m6, e6, h6) = set-Holds m5 _ "ctime" (J.from_int job.ctime) h5 (unfold split in refl) in
      let (m7, e7, h7) =
        set-Holds m6 _ "progress" (F.from_double job.progress) h6 (unfold split in refl) in
      let (m8, e8, h8) =
        set-Holds m7 _ "completed" (J.from_bool job.completed) h7 (unfold split in refl) in
      let (m9, e9, h9) = set-Holds m8 _ "parameters" job.parameters h8 (unfold split in refl) in
      (m9, (unfold to_message in rw (e1, e2, e3, e4, e5, e6, e7, e8) e9), h9)

  -- An object with the members of a job's message, a status aside, reads as that job.
  from_message-Holds :
      (job : Job D V) (root : V) (l : Table V)
      → fits_int job.ctime ≡ true
      → Holds root l
      → ((k : String) → ("@status_code" == k) ≡ false → Table.find k l ≡ Table.find k (written job))
      → from_message root ≡ job
  from_message-Holds job root l fit h same =
      let at : (k : String)
          → split k "." ≡ k ∷ []
          → ("@status_code" == k) ≡ false
          → find k root ≡ Table.find k (written job) =
        λ k q n. Holds-find root l k h q ∙ same k n in
      let text : (k : String) (t : String)
          → split k "." ≡ k ∷ []
          → ("@status_code" == k) ≡ false
          → Table.find k (written job) ≡ some (J.from_string t)
          → get_string k "" root ≡ t =
        λ k t q n f. get_string_found k t "" root (at k q n ∙ f) in
      let int : get_int "ctime" (pos 0) root ≡ job.ctime =
        get_int_found "ctime" job.ctime (pos 0) root fit
          (at "ctime" (unfold split in refl) refl ∙ (unfold Table.find in refl)) in
      let bool : get_bool "completed" false root ≡ job.completed =
        get_bool_found "completed" job.completed false root
          (at "completed" (unfold split in refl) refl ∙ (unfold Table.find in refl)) in
      let double : get_double "progress" F.zero root ≡ job.progress =
        get_double_found "progress" job.progress F.zero root
          (at "progress" (unfold split in refl) refl ∙ (unfold Table.find in refl)) in
      let raw : get_raw_value "parameters" root ≡ job.parameters =
        get_raw_value_found "parameters" job.parameters root
          (at "parameters" (unfold split in refl) refl ∙ (unfold Table.find in refl)) in
      (unfold from_message get_meta in
        rw
          (
            text "@job_id" job.id (unfold split in refl) refl (unfold Table.find in refl),
            text "@api_key" job.api_key (unfold split in refl) refl (unfold Table.find in refl),
            text "@origin_node" job.origin_node (unfold split in refl) refl
                (unfold Table.find in refl),
            text "module" job.module_name (unfold split in refl) refl (unfold Table.find in refl),
            text "action" job.action (unfold split in refl) refl (unfold Table.find in refl),
            int,
            bool,
            double,
            raw,
          )
          refl)

  -- The message that a job is written as reads as that job, if the creation time is an `int`; so
  -- does the message with a status code added, which answers a request.
  pub from_message-to_message :
      (job : Job D V) (status : StatusCode)
      → fits_int job.ctime ≡ true
      → (root : V) × (to_message job ≡ ok root)
        × (J.is_object root ≡ true)
        × (from_message root ≡ job)
        × (from_message (with_code status root) ≡ job)
  from_message-to_message job status fit =
      let (root, e, h) = to_message-Holds job in
      (
        root,
        e,
        h.0,
        from_message-Holds job root (written job) fit h (λ k n. refl),
        (unfold with_code in
            from_message-Holds job _ _ fit
              (Holds-insert root (written job) "@status_code" (J.from_int (code status)) h)
              (λ k n. unfold Table.find in rw n)),
      )

  -- A job's text reads back as the job, if the creation time is an `int` and the JSON library reads
  -- back the message that the job is written as.
  pub deserialize-job_to_string :
      (job : Job D V)
      → fits_int job.ctime ≡ true
      → ((root : V) → to_message job ≡ ok root → IsReadBack root)
      → (text : String) × (job_to_string job ≡ ok text) × (deserialize text ≡ ok job)
  deserialize-job_to_string job fit back =
      let (root, e, o, same, also) = from_message-to_message job StatusCode.ok fit in
      let (full, read) = back root e in
      (
        J.fast_write root,
        (unfold job_to_string to_string in rw e refl),
        (unfold deserialize in
            rw (parse_found (J.fast_write root) J.object_value root full read) (ap ok same)),
      )
