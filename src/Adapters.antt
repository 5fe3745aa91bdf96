-- ===== src/Adapters.antt =====
-- policy-sync/policy_sync/adapters.py: the interface of an adapter, which the compiler and the OSV
-- decisions take, and its two implementations.
pub mod Npm
pub mod Release
pub mod Pypi
pub mod Bounds
use artea.Base.{Bool, Text, codes, Result}
use artea.Policy.{PolicyError, npm, pypi}

pub record Adapter : Type 0 where
  pub ecosystem : Text
  pub osv_ecosystem : Text
  pub normalize_name : Text → Result PolicyError Text
  pub supports_namespace : Bool
  pub normalize_namespace : Text → Result PolicyError Text
  pub validate_range : Text → Result PolicyError (Unit {0})
  pub is_exact : Text → Bool
  pub exact_value : Text → Result PolicyError Text
  pub exact_allows : Text → Text → Result PolicyError Bool

abbrev pub npm_adapter : Adapter
npm_adapter = record {
  ecosystem = npm;
  osv_ecosystem = npm;
  normalize_name = Npm.normalize_name;
  supports_namespace = Npm.supports_namespace;
  normalize_namespace = Npm.normalize_namespace;
  validate_range = Npm.validate_range;
  is_exact = Npm.is_exact;
  exact_value = Npm.exact_value;
  exact_allows = Npm.exact_allows;
}

abbrev pub pypi_adapter : Adapter
pypi_adapter = record {
  ecosystem = pypi;
  osv_ecosystem = codes "PyPI";
  normalize_name = Pypi.normalize_name;
  supports_namespace = Pypi.supports_namespace;
  normalize_namespace = Pypi.normalize_namespace;
  validate_range = Pypi.validate_range;
  is_exact = Pypi.is_exact;
  exact_value = Pypi.exact_value;
  exact_allows = Pypi.exact_allows;
}
