-- ===== src/Json.antt =====
-- src/json: the strict reader of the fields of a JSON object, over the values of nlohmann::json.
pub mod Values
pub mod Reader
