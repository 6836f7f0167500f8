-- ===== src/Store/Learned.antt =====
-- SaveModel of internal/store/retention.go. The JSON of the model and its retention_days are not columns of the
-- rows here; the CHECK on the latter is.
use onlybackup.Prelude.{
  ℕ, String, Bool, ◌&&◌, not, List, [], ◌∷◌, ◌++◌, ltb, ◌==◌, nat_eq, string_eq, Result, ok,
  constraint, refuse_if, ◌>>◌, if◌then◌else◌, any, update,
}
use onlybackup.Model.Types.{Instant, unix}
use onlybackup.Catalog.Tables.{Db, ModelRow}

abbrev is_model : String → ℕ → ModelRow → Bool
is_model key_id revision m = m.key_id == key_id && m.revision == revision

-- INSERT … ON CONFLICT(key_id,revision) DO UPDATE
unfoldable pub upsert_model : ModelRow → List ModelRow → List ModelRow
upsert_model m ms =
    if any (is_model m.key_id m.revision) ms
    then update (is_model m.key_id m.revision) (λ _. m) ms
    else ms ++ m ∷ []

-- SaveModel; key_id REFERENCES keys(id), and CHECK(retention_days>=7)
unfoldable pub save_model : String → ℕ → String → ℕ → Bool → Bool → Instant → Db → Result Db
unfolding upsert_model
save_model key_id revision timezone retention_days reliable review now db = do
  refuse_if (ltb retention_days 7) (constraint "monitoring_models.retention_days")
  refuse_if (not (any (λ k. k.id == key_id) db.keys)) (constraint "monitoring_models.key_id")
  ok (record db {
    models =
        upsert_model
          (record {
            key_id = key_id;
            revision = revision;
            learned_at = unix now;
            timezone = timezone;
            reliable = reliable;
            review_required = review;
          })
          db.models;
  })
