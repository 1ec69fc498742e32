-- ===== src/Domain/Errors/Tests.antt =====
-- The domain errors at concrete values.
use cloud_ops_manager.Common.{◌≡◌, refl}
use cloud_ops_manager.Text.{codes}
use cloud_ops_manager.Domain.Errors.{error_text, not_found}

text :
    error_text (not_found (codes "app") (codes "7"))
    ≡ codes "RESOURCE_NOT_FOUND: app with id '7' not found: resource not found"
unfolding error_text not_found
text = refl
