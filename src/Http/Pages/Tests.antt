-- ===== src/Http/Pages/Tests.antt =====
-- The paths that SwaggerUI makes: it strips /swagger, and leaves the routes of the router as they are.
use cloud_ops_manager.Common.{◌≡◌, refl}
use cloud_ops_manager.Text.{codes, text_eq}
use cloud_ops_manager.Http.Pages.{swagger_path, behind}

paths :
    (swagger_path (codes "/swagger") ≡ codes "/index.html")
    × (swagger_path (codes "/swagger/index.css") ≡ codes "/index.css")
    × (swagger_path (codes "/v1/swagger") ≡ codes "/v1/swagger")
    × (swagger_path (codes "/v1/swagger/") ≡ codes "/v1/swagger/")
unfolding swagger_path behind text_eq
paths = (refl, refl, refl, refl)
