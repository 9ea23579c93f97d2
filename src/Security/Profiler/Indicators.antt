-- ===== src/Security/Profiler/Indicators.antt =====
-- `_LANGUAGE_INDICATORS` of security_toolkit/src/core/profiler.py: for each language the file names and
-- the endings, after a star, by which it is recognised.
use csc512_distributed_syste.Prelude.{List, [], ◌∷◌}
use csc512_distributed_syste.Prelude.Dict.{Dict}
use csc512_distributed_syste.Prelude.Text.{Text, codes}

unfoldable pub language_indicators : Dict Text (List Text)
language_indicators =
    (
      codes "python",
      codes "pyproject.toml"
          ∷ codes "setup.py"
          ∷ codes "setup.cfg"
          ∷ codes "Pipfile"
          ∷ codes "Pipfile.lock"
          ∷ codes "requirements.txt"
          ∷ codes "poetry.lock"
          ∷ codes "*.py"
          ∷ [],
    )
    ∷ (
      codes "javascript",
      codes "package.json"
          ∷ codes "package-lock.json"
          ∷ codes "yarn.lock"
          ∷ codes "*.js"
          ∷ codes "*.jsx"
          ∷ codes "*.mjs"
          ∷ codes "*.cjs"
          ∷ [],
    )
    ∷ (codes "typescript", codes "tsconfig.json" ∷ codes "*.ts" ∷ codes "*.tsx" ∷ [])
    ∷ (codes "go", codes "go.mod" ∷ codes "go.sum" ∷ codes "*.go" ∷ [])
    ∷ (codes "rust", codes "Cargo.toml" ∷ codes "Cargo.lock" ∷ codes "*.rs" ∷ [])
    ∷ (codes "c", codes "*.c" ∷ codes "*.h" ∷ codes "Makefile" ∷ codes "CMakeLists.txt" ∷ [])
    ∷ (codes "cpp", codes "*.cpp" ∷ codes "*.cc" ∷ codes "*.cxx" ∷ codes "*.hpp" ∷ [])
    ∷ (
      codes "java",
      codes "pom.xml" ∷ codes "build.gradle" ∷ codes "build.gradle.kts" ∷ codes "*.java" ∷ [],
    )
    ∷ (codes "ruby", codes "Gemfile" ∷ codes "Gemfile.lock" ∷ codes "*.rb" ∷ [])
    ∷ (codes "php", codes "composer.json" ∷ codes "composer.lock" ∷ codes "*.php" ∷ [])
    ∷ (codes "csharp", codes "*.csproj" ∷ codes "*.sln" ∷ codes "*.cs" ∷ [])
    ∷ (codes "kotlin", codes "*.kt" ∷ codes "*.kts" ∷ [])
    ∷ (codes "scala", codes "*.scala" ∷ codes "build.sbt" ∷ [])
    ∷ (codes "swift", codes "*.swift" ∷ codes "Package.swift" ∷ [])
    ∷ (codes "bash", codes "*.sh" ∷ codes "*.bash" ∷ [])
    ∷ (codes "dart", codes "*.dart" ∷ codes "pubspec.yaml" ∷ [])
    ∷ (codes "elixir", codes "*.ex" ∷ codes "*.exs" ∷ codes "mix.exs" ∷ [])
    ∷ (codes "haskell", codes "*.hs" ∷ codes "stack.yaml" ∷ codes "*.cabal" ∷ [])
    ∷ (codes "lua", codes "*.lua" ∷ [])
    ∷ (codes "perl", codes "*.pl" ∷ codes "*.pm" ∷ [])
    ∷ (codes "r", codes "*.R" ∷ codes "*.r" ∷ codes "DESCRIPTION" ∷ [])
    ∷ (codes "objective-c", codes "*.m" ∷ codes "*.mm" ∷ [])
    ∷ (codes "powershell", codes "*.ps1" ∷ codes "*.psm1" ∷ [])
    ∷ (codes "groovy", codes "*.groovy" ∷ codes "Jenkinsfile" ∷ [])
    ∷ (codes "terraform", codes "*.tf" ∷ codes "*.tfvars" ∷ [])
    ∷ []
