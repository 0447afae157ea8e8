-- ===== src/Storage.antt =====
-- packages/storage-sqlite/src/index.ts: the document store `JsonRepository`. A table is the list of
-- its rows in the order of insertion; `JSON.parse` gives back what `JSON.stringify` was given.
pub mod Laws
use chunsik_bot.Base.{
  String, Bool, not, Option, List, [], ◌∷◌, if◌then◌else◌, ◌==◌, string_eq, find, filter,
}
use chunsik_bot.Domain.{EntityId}

-- `T extends { id: Id }`
pub record Entity (T : Type 0) : Type 0 where
  pub id_of : T → EntityId

module _ {T : Type 0} ⦃entity : Entity T⦄ where
  unfoldable pub get : EntityId → List T → Option T
  get id rows = find (λ row. entity.id_of row == id) rows

  -- `INSERT … ON CONFLICT(id) DO UPDATE`
  unfoldable pub save : T → List T → List T
  save row [] = row ∷ []
  save row (other ∷ rows) =
      let rest = save row rows in
      if entity.id_of other == entity.id_of row then row ∷ rows else other ∷ rest

  unfoldable pub delete : EntityId → List T → List T
  delete id rows = filter (λ row. not (entity.id_of row == id)) rows
